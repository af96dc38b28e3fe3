-- ===== src/Conformance/Cases/TonClockWrap.antt =====
-- The fixture ton-clock-wrap-core-001 of runtime/generated/rsm_conformance_fixtures.c.
use rsmicro.Prelude.{List, [], ◌∷◌, ◌++◌, ◌≡◌, refl, true}
use rsmicro.Prelude.Int.{pos, negsuc}
use rsmicro.Core.Words.{Bytes}
use rsmicro.Core.Types.{Floats, boolean, dint}
use rsmicro.Conformance.Fixture.{Assertion, FixtureStep, Fixture, row, rows, assertion, step}
use rsmicro.Conformance.Runner.{passes}

abbrev image_28 : Bytes
image_28 =
    rows (
      0x00000080004000000000000000100002000000010000069400480002314d5352
      ∷ 0x4abed72f088dc144b4b0fc942728a9087938587496c09af623321f1401000000
      ∷ 0x000000020000000000000000000001280000018800000001b7047216229d1b17
      ∷ 0x0000000000000003000002ca0000000300000000000000000000001a000002b0
      ∷ 0x000002cf00000005000000000000000000000002000002cd0000000400000000
      ∷ 0x000000000000000000000026000002d90000000600000000000000000000000a
      ∷ 0x000000140000033a0000000800000000000000000000003b000002ff00000007
      ∷ 0x0000000a00000000000000000000001f0000034e000000090000000000000000
      ∷ 0x00000000000000020000036f0000000b0000000000000000000000020000036d
      ∷ 0x0000055b0000000d0000000000000000000001ea000003710000000c00000000
      ∷ 0x0000000000000000000000e90000056f0000000e000000000000000000000014
      ∷ 0x00000010000006840000001000000000000000000000002c000006580000000f
      ∷ 0x434341227b3a226c616974696e69222c303a226469227b5b0000000000000000
      ∷ 0x6572222c2272656d6974223a22656d616e222c7d30313a22455250222c303a22
      ∷ 0x4e5245544e49223a22656761726f7473222c65736c61663a22657669746e6574
      ∷ 0x3030303030223a2264697575222c2252454d4954223a2265707974222c224c41
      ∷ 0x223030303030303030303030302d303030382d303030342d303030302d303030
      ∷ 0x22656d616e222c65736c61663a226c616974696e69222c313a226469227b2c7d
      ∷ 0x73222c65736c61663a22657669746e65746572222c22646576726573626f223a
      ∷ 0x224c4f4f42223a2265707974222c224c414e5245544e49223a22656761726f74
      ∷ 0x303030382d303030342d303030302d3030303030303030223a2264697575222c
      ∷ 0x3a22455250222c303a22434341227b5b5d7d223130303030303030303030302d
      ∷ 0x3a226469227b5b5d7d303a226469227b5b5d5b5d305b5d65736c61662c7d3031
      ∷ 0x5b5d7d2272223a2264697575222c2265727574786966223a22656d616e222c30
      ∷ 0x303a2264695f656e6974756f72222c303a226469222c313a22746e756f63227b
      ∷ 0x0000000001105d7d22676e7572223a2264697575222c303a227472617473222c
      ∷ 0x2264695f6e6f697463757274736e69227b5b0000000000000401000000000000
      ∷ 0x22736e6f697463757274736e69227b5d5b5d5b5d7d303a22746f6c73222c303a
      ∷ 0x2c36313a2265646f63706f222c224e4f54223a2263696e6f6d656e6d227b5b3a
      ∷ 0x6966223a22687461705f656372756f73222c303a2264695f656d69746e757222
      ∷ 0x22302f3130302d65726f632d706172772d6b636f6c632d6e6f742f6572757478
      ∷ 0x3030303030303030223a2264697575222c303a22746f6c735f6574617473222c
      ∷ 0x2c5d7d223030303030303030303030302d313030382d303030342d303030302d
      ∷ 0x74786966223a22656d616e222c303a226469227b5b3a2273656e6974756f7222
      ∷ 0x756f63227b5b3a2273676e7572222c5d7d2272223a2264697575222c22657275
      ∷ 0x617473222c303a2264695f656e6974756f72222c303a226469222c313a22746e
      ∷ 0x227b5b3a2273676174222c5d7d22676e7572223a2264697575222c303a227472
      ∷ 0x7974222c303a2264695f656d69746e7572222c2272656d6974223a22656d616e
      ∷ 0x3030302d3030303030303030223a2264697575222c2252454d4954223a226570
      ∷ 0x6d616e227b2c7d223030303030303030303030302d303030382d303030342d30
      ∷ 0x7974222c313a2264695f656d69746e7572222c22646576726573626f223a2265
      ∷ 0x303030302d3030303030303030223a2264697575222c224c4f4f42223a226570
      ∷ 0x73626f225b7d5d7d223130303030303030303030302d303030382d303030342d
      ∷ 0x303a2265746174735f68636e617262227b5d2272656d6974222c226465767265
      ∷ 0x74735f646e616d6d6f63222c383a22676e696b636172745f65676e616863222c
      ∷ 0x766f5f6563726f66222c303a22737265746e756f63222c34363a22676e696761
      ∷ 0x7274736e69222c313a226567616d695f7475706e69222c343a227379616c7265
      ∷ 0x3a226567616d695f74757074756f222c36313a2265746174735f6e6f69746375
      ∷ 0x6e7572222c3337313a2273657479625f616e6572615f656d69746e7572222c31
      ∷ 0x616373222c34363a22646165687265766f5f6572757463757274735f656d6974
      ∷ 0x00000004000000027d36313a227372656d6974222c313a22736761745f72616c
      ∷ 0x000000000000000000000000000000010000000000000000000000000000000a ∷ [])
    ++ row 20 0x0000000100000000000000000000000100000000

abbrev assertions_28_0 : List Assertion
assertions_28_0 = assertion 0 2 (dint (pos 0)) ∷ []

abbrev assertions_28_1 : List Assertion
assertions_28_1 = assertion 0 2 (dint (pos 0)) ∷ assertion 0 3 (boolean 1) ∷ []

abbrev assertions_28_2 : List Assertion
assertions_28_2 = assertion 0 2 (dint (pos 3)) ∷ assertion 0 4 (boolean 1) ∷ []

abbrev steps_28 : List FixtureStep
steps_28 =
    step 5 18446744073709550615 0 (boolean 0) 0 (pos 1) 18446744073709551615 (negsuc 0) 0 (negsuc 0)
      assertions_28_0 [] [] [] 0 []
    ∷ step 3 18446744073709550616 0 (boolean 0) 0 (negsuc 0) 18446744073709551615 (negsuc 0) 0
        (negsuc 0) assertions_28_1 [] [] [] 0 []
    ∷ step 3 2000 0 (boolean 0) 0 (negsuc 0) 18446744073709551615 (negsuc 0) 0 (negsuc 0)
        assertions_28_2 [] [] [] 0 []
    ∷ []

abbrev ton_clock_wrap_core_001 : Fixture
ton_clock_wrap_core_001 = record {
  id = "ton-clock-wrap-core-001";
  instruction = "TON";
  image = image_28;
  steps = steps_28;
}

-- The fixture passes, whatever the operations on REAL do.
ton_clock_wrap_core_001-passes : (fl : Floats) → passes fl ton_clock_wrap_core_001 ≡ true
unfolding passes
ton_clock_wrap_core_001-passes fl = refl
