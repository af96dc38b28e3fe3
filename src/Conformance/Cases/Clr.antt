-- ===== src/Conformance/Cases/Clr.antt =====
-- The fixture clr-core-001 of runtime/generated/rsm_conformance_fixtures.c.
use rsmicro.Prelude.{List, [], ◌∷◌, ◌++◌, ◌≡◌, refl, true}
use rsmicro.Prelude.Int.{pos, negsuc}
use rsmicro.Core.Words.{Bytes}
use rsmicro.Core.Types.{Floats, boolean, dint}
use rsmicro.Conformance.Fixture.{Assertion, FixtureStep, Fixture, row, rows, assertion, step}
use rsmicro.Conformance.Runner.{passes}

abbrev image_4 : Bytes
image_4 =
    rows (
      0x0000008000400000000000000010000200000001000006e300480002314d5352
      ∷ 0x55dd6683ac4cc3e025f67831c9703b9ac56ada90bec24383203b326001000000
      ∷ 0x0000000200000000000000000000011200000188000000015a5a6effb2318dd1
      ∷ 0x0000000000000002000002a40000000300000000000000000000000a0000029a
      ∷ 0x000002a800000005000000000000000000000002000002a60000000400000000
      ∷ 0x000000000000000000000026000002b20000000600000000000000000000000a
      ∷ 0x00000028000003130000000800000000000000000000003b000002d800000007
      ∷ 0x0000000a0000000000000000000000020000033b000000090000000000000000
      ∷ 0x00000000000000020000033f0000000b0000000000000000000000020000033d
      ∷ 0x000005b10000000d000000000000000000000270000003410000000c00000000
      ∷ 0x0000000000000000000000e7000005c00000000e00000000000000000000000f
      ∷ 0x00000010000006d30000001000000000000000000000002c000006a70000000f
      ∷ 0x65736c61663a226c616974696e69222c303a226469227b5b0000000000000000
      ∷ 0x65736c61663a22657669746e65746572222c2265746167223a22656d616e222c
      ∷ 0x4f42223a2265707974222c224c414e5245544e49223a22656761726f7473222c
      ∷ 0x382d303030342d303030302d3030303030303030223a2264697575222c224c4f
      ∷ 0x74696e69222c313a226469227b2c7d223030303030303030303030302d303030
      ∷ 0x657669746e65746572222c2274736564223a22656d616e222c35353a226c6169
      ∷ 0x7974222c224c414e5245544e49223a22656761726f7473222c65736c61663a22
      ∷ 0x303030302d3030303030303030223a2264697575222c22544e4944223a226570
      ∷ 0x65736c61665b5d7d223130303030303030303030302d303030382d303030342d
      ∷ 0x656d616e222c303a226469227b5b5d7d303a226469227b5b5d5b5d5b5d35352c
      ∷ 0x746e756f63227b5b5d7d2272223a2264697575222c2265727574786966223a22
      ∷ 0x7472617473222c303a2264695f656e6974756f72222c303a226469222c323a22
      ∷ 0x01ffffffff00000000000001015d7d22676e7572223a2264697575222c303a22
      ∷ 0x5b5d5b5d5b0000000100000201ffffffff000000010000013100000000000001
      ∷ 0x58223a2263696e6f6d656e6d227b5b3a22736e6f697463757274736e69227b5d
      ∷ 0x73222c303a2264695f656d69746e7572222c313a2265646f63706f222c224349
      ∷ 0x30302d65726f632d726c632f65727574786966223a22687461705f656372756f
      ∷ 0x30223a2264697575222c6c6c756e3a22746f6c735f6574617473222c22302f31
      ∷ 0x3030303030303030302d313030382d303030342d303030302d30303030303030
      ∷ 0x2265646f63706f222c22524c43223a2263696e6f6d656e6d227b2c7d22303030
      ∷ 0x22687461705f656372756f73222c313a2264695f656d69746e7572222c39343a
      ∷ 0x6574617473222c22312f3130302d65726f632d726c632f65727574786966223a
      ∷ 0x3030302d3030303030303030223a2264697575222c6c6c756e3a22746f6c735f
      ∷ 0x756f72222c5d7d223130303030303030303030302d313030382d303030342d30
      ∷ 0x2265727574786966223a22656d616e222c303a226469227b5b3a2273656e6974
      ∷ 0x3a22746e756f63227b5b3a2273676e7572222c5d7d2272223a2264697575222c
      ∷ 0x3a227472617473222c303a2264695f656e6974756f72222c303a226469222c32
      ∷ 0x656d616e227b5b3a2273676174222c5d7d22676e7572223a2264697575222c30
      ∷ 0x223a2265707974222c303a2264695f656d69746e7572222c2265746167223a22
      ∷ 0x303030342d303030302d3030303030303030223a2264697575222c224c4f4f42
      ∷ 0x6564223a22656d616e227b2c7d223030303030303030303030302d303030382d
      ∷ 0x22544e4944223a2265707974222c313a2264695f656d69746e7572222c227473
      ∷ 0x303030382d303030342d303030302d3030303030303030223a2264697575222c
      ∷ 0x5d2265746167222c2274736564225b7d5d7d223130303030303030303030302d
      ∷ 0x696b636172745f65676e616863222c303a2265746174735f68636e617262227b
      ∷ 0x6e756f63222c34363a22676e69676174735f646e616d6d6f63222c383a22676e
      ∷ 0x75706e69222c343a227379616c7265766f5f6563726f66222c303a2273726574
      ∷ 0x303a2265746174735f6e6f697463757274736e69222c313a226567616d695f74
      ∷ 0x616e6572615f656d69746e7572222c313a226567616d695f74757074756f222c
      ∷ 0x6f5f6572757463757274735f656d69746e7572222c3534313a2273657479625f
      ∷ 0x6d6974222c353a22736761745f72616c616373222c34363a2264616568726576
      ∷ 0x020000000000000000000000000000000000000001000000027d303a22737265
      ∷ 0x0200000000000000000000000100000000000000000000000000000037000000 ∷ [])
    ++ row 3 0x000000

abbrev assertions_4_0 : List Assertion
assertions_4_0 = assertion 1 0 (dint (pos 55)) ∷ []

abbrev assertions_4_1 : List Assertion
assertions_4_1 = assertion 1 0 (dint (pos 55)) ∷ []

abbrev assertions_4_2 : List Assertion
assertions_4_2 = assertion 0 0 (boolean 1) ∷ []

abbrev assertions_4_3 : List Assertion
assertions_4_3 = assertion 1 0 (dint (pos 0)) ∷ []

abbrev steps_4 : List FixtureStep
steps_4 =
    step 5 0 0 (boolean 0) 0 (pos 1) 18446744073709551615 (negsuc 0) 0 (negsuc 0) assertions_4_0 []
      [] [] 0 []
    ∷ step 3 1000 0 (boolean 0) 0 (negsuc 0) 18446744073709551615 (negsuc 0) 0 (negsuc 0)
        assertions_4_1 [] [] [] 0 []
    ∷ step 4 2000 0 (boolean 1) 0 (negsuc 0) 18446744073709551615 (negsuc 0) 0 (negsuc 0)
        assertions_4_2 [] [] [] 0 []
    ∷ step 3 3000 0 (boolean 0) 0 (negsuc 0) 18446744073709551615 (negsuc 0) 0 (negsuc 0)
        assertions_4_3 [] [] [] 0 []
    ∷ []

abbrev clr_core_001 : Fixture
clr_core_001 = record { id = "clr-core-001"; instruction = "CLR"; image = image_4; steps = steps_4 }

-- The fixture passes, whatever the operations on REAL do.
clr_core_001-passes : (fl : Floats) → passes fl clr_core_001 ≡ true
unfolding passes
clr_core_001-passes fl = refl
