-- ===== src/Conformance/Cases/Ctu.antt =====
-- The fixture ctu-core-001 of runtime/generated/rsm_conformance_fixtures.c.
use rsmicro.Prelude.{List, [], ◌∷◌, ◌++◌, ◌≡◌, refl, true}
use rsmicro.Prelude.Int.{pos, negsuc}
use rsmicro.Core.Words.{Bytes}
use rsmicro.Core.Types.{Floats, boolean, dint}
use rsmicro.Conformance.Fixture.{Assertion, FixtureStep, Fixture, row, rows, assertion, step}
use rsmicro.Conformance.Runner.{passes}

abbrev image_7 : Bytes
image_7 =
    rows (
      0x00000080004000000000000000100002000000010000072d00480002314d5352
      ∷ 0xb80521fadab3f35d4190ba838700f6988c84fd497b3da61cbede946d01000000
      ∷ 0x0000000200000000000000000000012700000188000000015752995635895d74
      ∷ 0x0000000000000002000002c800000003000000000000000000000019000002af
      ∷ 0x000002cd00000005000000000000000000000003000002ca0000000400000000
      ∷ 0x000000000000000000000026000002d70000000600000000000000000000000a
      ∷ 0x00000028000003380000000800000000000000000000003b000002fd00000007
      ∷ 0x0000000a00000000000000000000001f00000360000000090000000000000000
      ∷ 0x0000000000000002000003810000000b0000000000000000000000020000037f
      ∷ 0x000005f60000000d000000000000000000000273000003830000000c00000000
      ∷ 0x0000000000000000000000e9000006080000000e000000000000000000000012
      ∷ 0x000000100000071d0000001000000000000000000000002c000006f10000000f
      ∷ 0x65736c61663a226c616974696e69222c303a226469227b5b0000000000000000
      ∷ 0x65736c61663a22657669746e65746572222c2265746167223a22656d616e222c
      ∷ 0x4f42223a2265707974222c224c414e5245544e49223a22656761726f7473222c
      ∷ 0x382d303030342d303030302d3030303030303030223a2264697575222c224c4f
      ∷ 0x74696e69222c313a226469227b2c7d223030303030303030303030302d303030
      ∷ 0x63223a22656d616e222c7d313a22455250222c303a22434341227b3a226c6169
      ∷ 0x61726f7473222c65736c61663a22657669746e65746572222c227265746e756f
      ∷ 0x2c225245544e554f43223a2265707974222c224c414e5245544e49223a226567
      ∷ 0x2d303030382d303030342d303030302d3030303030303030223a226469757522
      ∷ 0x222c303a22434341227b2c65736c61665b5d7d22313030303030303030303030
      ∷ 0x2c303a226469227b5b5d7d303a226469227b5b5d315b5d5b5d7d313a22455250
      ∷ 0x227b5b5d7d2272223a2264697575222c2265727574786966223a22656d616e22
      ∷ 0x222c303a2264695f656e6974756f72222c303a226469222c323a22746e756f63
      ∷ 0x00000000000001015d7d22676e7572223a2264697575222c303a227472617473
      ∷ 0x00000001000005010000000000000001000001110000000000000101ffffffff
      ∷ 0x5b5d7d303a22746f6c73222c313a2264695f6e6f697463757274736e69227b5b
      ∷ 0x3a2263696e6f6d656e6d227b5b3a22736e6f697463757274736e69227b5d5b5d
      ∷ 0x2c303a2264695f656d69746e7572222c313a2265646f63706f222c2243495822
      ∷ 0x2d65726f632d7574632f65727574786966223a22687461705f656372756f7322
      ∷ 0x3a2264697575222c6c6c756e3a22746f6c735f6574617473222c22302f313030
      ∷ 0x303030303030302d313030382d303030342d303030302d303030303030303022
      ∷ 0x646f63706f222c22555443223a2263696e6f6d656e6d227b2c7d223030303030
      ∷ 0x7461705f656372756f73222c313a2264695f656d69746e7572222c37313a2265
      ∷ 0x617473222c22312f3130302d65726f632d7574632f65727574786966223a2268
      ∷ 0x303030302d3030303030303030223a2264697575222c303a22746f6c735f6574
      ∷ 0x74756f72222c5d7d223130303030303030303030302d313030382d303030342d
      ∷ 0x2c2265727574786966223a22656d616e222c303a226469227b5b3a2273656e69
      ∷ 0x323a22746e756f63227b5b3a2273676e7572222c5d7d2272223a226469757522
      ∷ 0x303a227472617473222c303a2264695f656e6974756f72222c303a226469222c
      ∷ 0x22656d616e227b5b3a2273676174222c5d7d22676e7572223a2264697575222c
      ∷ 0x42223a2265707974222c303a2264695f656d69746e7572222c2265746167223a
      ∷ 0x2d303030342d303030302d3030303030303030223a2264697575222c224c4f4f
      ∷ 0x756f63223a22656d616e227b2c7d223030303030303030303030302d30303038
      ∷ 0x554f43223a2265707974222c313a2264695f656d69746e7572222c227265746e
      ∷ 0x303030342d303030302d3030303030303030223a2264697575222c225245544e
      ∷ 0x227265746e756f63225b7d5d7d223130303030303030303030302d303030382d
      ∷ 0x676e616863222c303a2265746174735f68636e617262227b5d2265746167222c
      ∷ 0x3a22676e69676174735f646e616d6d6f63222c383a22676e696b636172745f65
      ∷ 0x7379616c7265766f5f6563726f66222c30323a22737265746e756f63222c3436
      ∷ 0x6e6f697463757274736e69222c313a226567616d695f7475706e69222c343a22
      ∷ 0x6e7572222c313a226567616d695f74757074756f222c36313a2265746174735f
      ∷ 0x735f656d69746e7572222c3737313a2273657479625f616e6572615f656d6974
      ∷ 0x61745f72616c616373222c34363a22646165687265766f5f6572757463757274
      ∷ 0x0000000000000000000001000000027d303a227372656d6974222c313a227367
      ∷ 0x0000010000000000000000000000000000000100000005000000000000000000 ∷ [])
    ++ row 13 0x00000002000000000000000000

abbrev assertions_7_0 : List Assertion
assertions_7_0 =
    assertion 1 1 (dint (pos 1)) ∷ assertion 1 2 (dint (pos 0)) ∷ assertion 1 6 (boolean 0) ∷ []

abbrev assertions_7_1 : List Assertion
assertions_7_1 = assertion 1 2 (dint (pos 0)) ∷ assertion 1 6 (boolean 0) ∷ []

abbrev assertions_7_2 : List Assertion
assertions_7_2 = assertion 0 0 (boolean 1) ∷ []

abbrev assertions_7_3 : List Assertion
assertions_7_3 =
    assertion 1 2 (dint (pos 1)) ∷ assertion 1 6 (boolean 1) ∷ assertion 1 5 (boolean 1) ∷ []

abbrev assertions_7_4 : List Assertion
assertions_7_4 = assertion 1 2 (dint (pos 1)) ∷ []

abbrev assertions_7_5 : List Assertion
assertions_7_5 = assertion 0 0 (boolean 0) ∷ []

abbrev assertions_7_6 : List Assertion
assertions_7_6 = assertion 1 6 (boolean 0) ∷ []

abbrev assertions_7_7 : List Assertion
assertions_7_7 = assertion 0 0 (boolean 1) ∷ []

abbrev assertions_7_8 : List Assertion
assertions_7_8 = assertion 1 2 (dint (pos 2)) ∷ assertion 1 5 (boolean 1) ∷ []

abbrev steps_7 : List FixtureStep
steps_7 =
    step 5 0 0 (boolean 0) 0 (pos 1) 18446744073709551615 (negsuc 0) 0 (negsuc 0) assertions_7_0 []
      [] [] 0 []
    ∷ step 3 1000 0 (boolean 0) 0 (negsuc 0) 18446744073709551615 (negsuc 0) 0 (negsuc 0)
        assertions_7_1 [] [] [] 0 []
    ∷ step 4 2000 0 (boolean 1) 0 (negsuc 0) 18446744073709551615 (negsuc 0) 0 (negsuc 0)
        assertions_7_2 [] [] [] 0 []
    ∷ step 3 3000 0 (boolean 0) 0 (negsuc 0) 18446744073709551615 (negsuc 0) 0 (negsuc 0)
        assertions_7_3 [] [] [] 0 []
    ∷ step 3 4000 0 (boolean 0) 0 (negsuc 0) 18446744073709551615 (negsuc 0) 0 (negsuc 0)
        assertions_7_4 [] [] [] 0 []
    ∷ step 4 5000 0 (boolean 0) 0 (negsuc 0) 18446744073709551615 (negsuc 0) 0 (negsuc 0)
        assertions_7_5 [] [] [] 0 []
    ∷ step 3 6000 0 (boolean 0) 0 (negsuc 0) 18446744073709551615 (negsuc 0) 0 (negsuc 0)
        assertions_7_6 [] [] [] 0 []
    ∷ step 4 7000 0 (boolean 1) 0 (negsuc 0) 18446744073709551615 (negsuc 0) 0 (negsuc 0)
        assertions_7_7 [] [] [] 0 []
    ∷ step 3 8000 0 (boolean 0) 0 (negsuc 0) 18446744073709551615 (negsuc 0) 0 (negsuc 0)
        assertions_7_8 [] [] [] 0 []
    ∷ []

abbrev ctu_core_001 : Fixture
ctu_core_001 = record { id = "ctu-core-001"; instruction = "CTU"; image = image_7; steps = steps_7 }

-- The fixture passes, whatever the operations on REAL do.
ctu_core_001-passes : (fl : Floats) → passes fl ctu_core_001 ≡ true
unfolding passes
ctu_core_001-passes fl = refl
