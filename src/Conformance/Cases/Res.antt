-- ===== src/Conformance/Cases/Res.antt =====
-- The fixture res-core-001 of runtime/generated/rsm_conformance_fixtures.c.
use rsmicro.Prelude.{List, [], ◌∷◌, ◌++◌, ◌≡◌, refl, true}
use rsmicro.Prelude.Int.{pos, negsuc}
use rsmicro.Core.Words.{Bytes}
use rsmicro.Core.Types.{Floats, boolean, dint}
use rsmicro.Conformance.Fixture.{Assertion, FixtureStep, Fixture, row, rows, assertion, step}
use rsmicro.Conformance.Runner.{passes}

abbrev image_26 : Bytes
image_26 =
    rows (
      0x00000080004000000000000000100002000000010000071200480002314d5352
      ∷ 0xa6066c455c8e90b61907b8fb6ff9dbfb1a0f00f811e43aeeabbf898c01000000
      ∷ 0x000000020000000000000000000001270000018800000001b5a0f5bab5d37f9a
      ∷ 0x0000000000000002000002c800000003000000000000000000000019000002af
      ∷ 0x000002cd00000005000000000000000000000003000002ca0000000400000000
      ∷ 0x000000000000000000000026000002d70000000600000000000000000000000a
      ∷ 0x00000028000003380000000800000000000000000000003b000002fd00000007
      ∷ 0x0000000a00000000000000000000000200000360000000090000000000000000
      ∷ 0x0000000000000002000003640000000b00000000000000000000000200000362
      ∷ 0x000005dc0000000d000000000000000000000276000003660000000c00000000
      ∷ 0x0000000000000000000000e8000005ee0000000e000000000000000000000012
      ∷ 0x00000010000007020000001000000000000000000000002c000006d60000000f
      ∷ 0x65736c61663a226c616974696e69222c303a226469227b5b0000000000000000
      ∷ 0x65736c61663a22657669746e65746572222c2265746167223a22656d616e222c
      ∷ 0x4f42223a2265707974222c224c414e5245544e49223a22656761726f7473222c
      ∷ 0x382d303030342d303030302d3030303030303030223a2264697575222c224c4f
      ∷ 0x74696e69222c313a226469227b2c7d223030303030303030303030302d303030
      ∷ 0x63223a22656d616e222c7d393a22455250222c343a22434341227b3a226c6169
      ∷ 0x61726f7473222c65736c61663a22657669746e65746572222c227265746e756f
      ∷ 0x2c225245544e554f43223a2265707974222c224c414e5245544e49223a226567
      ∷ 0x2d303030382d303030342d303030302d3030303030303030223a226469757522
      ∷ 0x222c343a22434341227b2c65736c61665b5d7d22313030303030303030303030
      ∷ 0x2c303a226469227b5b5d7d303a226469227b5b5d315b5d5b5d7d393a22455250
      ∷ 0x227b5b5d7d2272223a2264697575222c2265727574786966223a22656d616e22
      ∷ 0x222c303a2264695f656e6974756f72222c303a226469222c323a22746e756f63
      ∷ 0x00000000000001015d7d22676e7572223a2264697575222c303a227472617473
      ∷ 0x0000000100000501ffffffff00000001000001130000000000000101ffffffff
      ∷ 0x696e6f6d656e6d227b5b3a22736e6f697463757274736e69227b5d5b5d5b5d5b
      ∷ 0x2264695f656d69746e7572222c313a2265646f63706f222c22434958223a2263
      ∷ 0x6f632d7365722f65727574786966223a22687461705f656372756f73222c303a
      ∷ 0x697575222c6c6c756e3a22746f6c735f6574617473222c22302f3130302d6572
      ∷ 0x303030302d313030382d303030342d303030302d3030303030303030223a2264
      ∷ 0x706f222c22534552223a2263696e6f6d656e6d227b2c7d223030303030303030
      ∷ 0x5f656372756f73222c313a2264695f656d69746e7572222c39313a2265646f63
      ∷ 0x222c22312f3130302d65726f632d7365722f65727574786966223a2268746170
      ∷ 0x30303030303030223a2264697575222c6c6c756e3a22746f6c735f6574617473
      ∷ 0x5d7d223130303030303030303030302d313030382d303030342d303030302d30
      ∷ 0x786966223a22656d616e222c303a226469227b5b3a2273656e6974756f72222c
      ∷ 0x6f63227b5b3a2273676e7572222c5d7d2272223a2264697575222c2265727574
      ∷ 0x7473222c303a2264695f656e6974756f72222c303a226469222c323a22746e75
      ∷ 0x7b5b3a2273676174222c5d7d22676e7572223a2264697575222c303a22747261
      ∷ 0x7974222c303a2264695f656d69746e7572222c2265746167223a22656d616e22
      ∷ 0x303030302d3030303030303030223a2264697575222c224c4f4f42223a226570
      ∷ 0x656d616e227b2c7d223030303030303030303030302d303030382d303030342d
      ∷ 0x65707974222c313a2264695f656d69746e7572222c227265746e756f63223a22
      ∷ 0x3030302d3030303030303030223a2264697575222c225245544e554f43223a22
      ∷ 0x6f63225b7d5d7d223130303030303030303030302d303030382d303030342d30
      ∷ 0x2c303a2265746174735f68636e617262227b5d2265746167222c227265746e75
      ∷ 0x6174735f646e616d6d6f63222c383a22676e696b636172745f65676e61686322
      ∷ 0x766f5f6563726f66222c30323a22737265746e756f63222c34363a22676e6967
      ∷ 0x7274736e69222c313a226567616d695f7475706e69222c343a227379616c7265
      ∷ 0x313a226567616d695f74757074756f222c303a2265746174735f6e6f69746375
      ∷ 0x746e7572222c3136313a2273657479625f616e6572615f656d69746e7572222c
      ∷ 0x6c616373222c34363a22646165687265766f5f6572757463757274735f656d69
      ∷ 0x000000000001000000027d303a227372656d6974222c313a22736761745f7261
      ∷ 0x0000000000000000000400000009000000050000000000000000000000000000 ∷ [])
    ++ row 18 0x000000020000000000000000000000010000

abbrev assertions_26_0 : List Assertion
assertions_26_0 = assertion 1 1 (dint (pos 9)) ∷ assertion 1 2 (dint (pos 4)) ∷ []

abbrev assertions_26_1 : List Assertion
assertions_26_1 = assertion 1 2 (dint (pos 4)) ∷ assertion 1 1 (dint (pos 9)) ∷ []

abbrev assertions_26_2 : List Assertion
assertions_26_2 = assertion 0 0 (boolean 1) ∷ []

abbrev assertions_26_3 : List Assertion
assertions_26_3 =
    assertion 1 1 (dint (pos 9))
    ∷ assertion 1 2 (dint (pos 0))
    ∷ assertion 1 6 (boolean 0)
    ∷ assertion 1 7 (boolean 0)
    ∷ assertion 1 5 (boolean 0)
    ∷ assertion 1 8 (boolean 0)
    ∷ assertion 1 9 (boolean 0)
    ∷ []

abbrev steps_26 : List FixtureStep
steps_26 =
    step 5 0 0 (boolean 0) 0 (pos 1) 18446744073709551615 (negsuc 0) 0 (negsuc 0) assertions_26_0 []
      [] [] 0 []
    ∷ step 3 1000 0 (boolean 0) 0 (negsuc 0) 18446744073709551615 (negsuc 0) 0 (negsuc 0)
        assertions_26_1 [] [] [] 0 []
    ∷ step 4 2000 0 (boolean 1) 0 (negsuc 0) 18446744073709551615 (negsuc 0) 0 (negsuc 0)
        assertions_26_2 [] [] [] 0 []
    ∷ step 3 3000 0 (boolean 0) 0 (negsuc 0) 18446744073709551615 (negsuc 0) 0 (negsuc 0)
        assertions_26_3 [] [] [] 0 []
    ∷ []

abbrev res_core_001 : Fixture
res_core_001 = record {
  id = "res-core-001";
  instruction = "RES";
  image = image_26;
  steps = steps_26;
}

-- The fixture passes, whatever the operations on REAL do.
res_core_001-passes : (fl : Floats) → passes fl res_core_001 ≡ true
unfolding passes
res_core_001-passes fl = refl
