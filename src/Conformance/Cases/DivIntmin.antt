-- ===== src/Conformance/Cases/DivIntmin.antt =====
-- The fixture div-intmin-core-001 of runtime/generated/rsm_conformance_fixtures.c.
use rsmicro.Prelude.{List, [], ◌∷◌, ◌++◌, ◌≡◌, refl, true}
use rsmicro.Prelude.Int.{pos, negsuc}
use rsmicro.Core.Words.{Bytes}
use rsmicro.Core.Types.{Floats, boolean, dint}
use rsmicro.Conformance.Fixture.{Assertion, FixtureStep, Fixture, row, rows, assertion, step}
use rsmicro.Conformance.Runner.{passes}

abbrev image_11 : Bytes
image_11 =
    rows (
      0x00000080004000000000000000100002000000010000074e00480002314d5352
      ∷ 0x2b83d71cbb79e7bf1f3e8ef2ece128e3b0b6ccba5fe798b6097251aa01000000
      ∷ 0x000000020000000000000000000001990000018800000001769e8d69901a8f35
      ∷ 0x0000000000000002000003340000000300000000000000000000001300000321
      ∷ 0x0000033800000005000000000000000000000002000003360000000400000000
      ∷ 0x000000000000000000000026000003420000000600000000000000000000000a
      ∷ 0x00000024000003a30000000800000000000000000000003b0000036800000007
      ∷ 0x0000000a000000000000000000000002000003c7000000090000000000000000
      ∷ 0x0000000000000002000003cb0000000b000000000000000000000002000003c9
      ∷ 0x000006050000000d000000000000000000000238000003cd0000000c00000000
      ∷ 0x0000000000000000000000e9000006150000000e000000000000000000000010
      ∷ 0x000000100000073e00000010000000000000000000000040000006fe0000000f
      ∷ 0x373431322d3a226c616974696e69222c303a226469227b5b0000000000000000
      ∷ 0x61663a22657669746e65746572222c2261223a22656d616e222c383436333834
      ∷ 0x3a2265707974222c224c414e5245544e49223a22656761726f7473222c65736c
      ∷ 0x3030342d303030302d3030303030303030223a2264697575222c22544e494422
      ∷ 0x69222c313a226469227b2c7d223030303030303030303030302d303030382d30
      ∷ 0x657669746e65746572222c2262223a22656d616e222c312d3a226c616974696e
      ∷ 0x7974222c224c414e5245544e49223a22656761726f7473222c65736c61663a22
      ∷ 0x303030302d3030303030303030223a2264697575222c22544e4944223a226570
      ∷ 0x3a226469227b2c7d223130303030303030303030302d303030382d303030342d
      ∷ 0x6572222c2274736564223a22656d616e222c37373a226c616974696e69222c32
      ∷ 0x4e5245544e49223a22656761726f7473222c65736c61663a22657669746e6574
      ∷ 0x303030303030223a2264697575222c22544e4944223a2265707974222c224c41
      ∷ 0x7d223230303030303030303030302d303030382d303030342d303030302d3030
      ∷ 0x303a226469227b5b5d5b5d5b5d37372c312d2c383436333834373431322d5b5d
      ∷ 0x697575222c2265727574786966223a22656d616e222c303a226469227b5b5d7d
      ∷ 0x74756f72222c303a226469222c313a22746e756f63227b5b5d7d2272223a2264
      ∷ 0x676e7572223a2264697575222c303a227472617473222c303a2264695f656e69
      ∷ 0x0100000001000002010000000000000201ffffffff00000000000003355d7d22
      ∷ 0x227b5b3a22736e6f697463757274736e69227b5d5b5d5b5d5b00000002000002
      ∷ 0x6e7572222c33353a2265646f63706f222c22564944223a2263696e6f6d656e6d
      ∷ 0x727574786966223a22687461705f656372756f73222c303a2264695f656d6974
      ∷ 0x5f6574617473222c22302f3130302d65726f632d6e696d746e692d7669642f65
      ∷ 0x303030302d3030303030303030223a2264697575222c6c6c756e3a22746f6c73
      ∷ 0x74756f72222c5d7d223030303030303030303030302d313030382d303030342d
      ∷ 0x2c2265727574786966223a22656d616e222c303a226469227b5b3a2273656e69
      ∷ 0x313a22746e756f63227b5b3a2273676e7572222c5d7d2272223a226469757522
      ∷ 0x303a227472617473222c303a2264695f656e6974756f72222c303a226469222c
      ∷ 0x22656d616e227b5b3a2273676174222c5d7d22676e7572223a2264697575222c
      ∷ 0x544e4944223a2265707974222c303a2264695f656d69746e7572222c2261223a
      ∷ 0x3030382d303030342d303030302d3030303030303030223a2264697575222c22
      ∷ 0x7572222c2262223a22656d616e227b2c7d223030303030303030303030302d30
      ∷ 0x2264697575222c22544e4944223a2265707974222c313a2264695f656d69746e
      ∷ 0x3030303030302d303030382d303030342d303030302d3030303030303030223a
      ∷ 0x656d69746e7572222c2274736564223a22656d616e227b2c7d22313030303030
      ∷ 0x303030223a2264697575222c22544e4944223a2265707974222c323a2264695f
      ∷ 0x30303030303030303030302d303030382d303030342d303030302d3030303030
      ∷ 0x74735f68636e617262227b5d2274736564222c2262222c2261225b7d5d7d2232
      ∷ 0x6d6f63222c32313a22676e696b636172745f65676e616863222c303a22657461
      ∷ 0x66222c303a22737265746e756f63222c34363a22676e69676174735f646e616d
      ∷ 0x303a226567616d695f7475706e69222c363a227379616c7265766f5f6563726f
      ∷ 0x695f74757074756f222c303a2265746174735f6e6f697463757274736e69222c
      ∷ 0x35313a2273657479625f616e6572615f656d69746e7572222c303a226567616d
      ∷ 0x363a22646165687265766f5f6572757463757274735f656d69746e7572222c38
      ∷ 0x00037d303a227372656d6974222c32313a22736761745f72616c616373222c34
      ∷ 0x0000ffffffff0000000200000000000000000000000080000000000000020000
      ∷ 0x00010000000000000000000000000000004d0000000200000000000000000000 ∷ [])
    ++ row 14 0x0000000100000000000000000000

abbrev assertions_11_0 : List Assertion
assertions_11_0 = assertion 2 0 (dint (pos 77)) ∷ []

abbrev assertions_11_1 : List Assertion
assertions_11_1 = assertion 2 0 (dint (pos 77)) ∷ []

abbrev steps_11 : List FixtureStep
steps_11 =
    step 5 0 0 (boolean 0) 0 (pos 1) 18446744073709551615 (negsuc 0) 0 (negsuc 0) assertions_11_0 []
      [] [] 0 []
    ∷ step 3 1000 0 (boolean 0) 15 (pos 3) 18446744073709551615 (pos 5) 3 (negsuc 0) assertions_11_1
        [] [] [] 0 []
    ∷ []

abbrev div_intmin_core_001 : Fixture
div_intmin_core_001 = record {
  id = "div-intmin-core-001";
  instruction = "DIV";
  image = image_11;
  steps = steps_11;
}

-- The fixture passes, whatever the operations on REAL do.
div_intmin_core_001-passes : (fl : Floats) → passes fl div_intmin_core_001 ≡ true
unfolding passes
div_intmin_core_001-passes fl = refl
