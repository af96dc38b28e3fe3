-- ===== src/Conformance/Cases/CtdRollover.antt =====
-- The fixture ctd-rollover-core-001 of runtime/generated/rsm_conformance_fixtures.c.
use rsmicro.Prelude.{List, [], ◌∷◌, ◌++◌, ◌≡◌, refl, true}
use rsmicro.Prelude.Int.{pos, negsuc}
use rsmicro.Core.Words.{Bytes}
use rsmicro.Core.Types.{Floats, boolean, dint}
use rsmicro.Conformance.Fixture.{Assertion, FixtureStep, Fixture, row, rows, assertion, step}
use rsmicro.Conformance.Runner.{passes}

abbrev image_6 : Bytes
image_6 =
    rows (
      0x00000080004000000000000000100002000000010000075300480002314d5352
      ∷ 0xb1605baaeaac439e2194ba53e834ed6ada22ddc4bdbfe8a6215cf27301000000
      ∷ 0x00000002000000000000000000000131000001880000000111725718a0dfc470
      ∷ 0x0000000000000002000002dc00000003000000000000000000000023000002b9
      ∷ 0x000002e100000005000000000000000000000003000002de0000000400000000
      ∷ 0x000000000000000000000026000002eb0000000600000000000000000000000a
      ∷ 0x000000280000034c0000000800000000000000000000003b0000031100000007
      ∷ 0x0000000a00000000000000000000001f00000374000000090000000000000000
      ∷ 0x0000000000000002000003950000000b00000000000000000000000200000393
      ∷ 0x0000061c0000000d000000000000000000000285000003970000000c00000000
      ∷ 0x0000000000000000000000e90000062e0000000e000000000000000000000012
      ∷ 0x00000010000007430000001000000000000000000000002c000007170000000f
      ∷ 0x65736c61663a226c616974696e69222c303a226469227b5b0000000000000000
      ∷ 0x65736c61663a22657669746e65746572222c2265746167223a22656d616e222c
      ∷ 0x4f42223a2265707974222c224c414e5245544e49223a22656761726f7473222c
      ∷ 0x382d303030342d303030302d3030303030303030223a2264697575222c224c4f
      ∷ 0x74696e69222c313a226469227b2c7d223030303030303030303030302d303030
      ∷ 0x7d313a22455250222c383436333834373431322d3a22434341227b3a226c6169
      ∷ 0x61663a22657669746e65746572222c227265746e756f63223a22656d616e222c
      ∷ 0x3a2265707974222c224c414e5245544e49223a22656761726f7473222c65736c
      ∷ 0x2d303030302d3030303030303030223a2264697575222c225245544e554f4322
      ∷ 0x2c65736c61665b5d7d223130303030303030303030302d303030382d30303034
      ∷ 0x315b5d5b5d7d313a22455250222c383436333834373431322d3a22434341227b
      ∷ 0x74786966223a22656d616e222c303a226469227b5b5d7d303a226469227b5b5d
      ∷ 0x6469222c323a22746e756f63227b5b5d7d2272223a2264697575222c22657275
      ∷ 0x7575222c303a227472617473222c303a2264695f656e6974756f72222c303a22
      ∷ 0x0000000000000101ffffffff00000000000001015d7d22676e7572223a226469
      ∷ 0x697463757274736e69227b5b0000000100000501000000000000000100000112
      ∷ 0x63757274736e69227b5d5b5d5b5d7d303a22746f6c73222c313a2264695f6e6f
      ∷ 0x646f63706f222c22434958223a2263696e6f6d656e6d227b5b3a22736e6f6974
      ∷ 0x687461705f656372756f73222c303a2264695f656d69746e7572222c313a2265
      ∷ 0x3130302d65726f632d7265766f6c6c6f722d6474632f65727574786966223a22
      ∷ 0x3030223a2264697575222c6c6c756e3a22746f6c735f6574617473222c22302f
      ∷ 0x303030303030303030302d313030382d303030342d303030302d303030303030
      ∷ 0x3a2265646f63706f222c22445443223a2263696e6f6d656e6d227b2c7d223030
      ∷ 0x3a22687461705f656372756f73222c313a2264695f656d69746e7572222c3831
      ∷ 0x312f3130302d65726f632d7265766f6c6c6f722d6474632f6572757478696622
      ∷ 0x30303030303030223a2264697575222c303a22746f6c735f6574617473222c22
      ∷ 0x5d7d223130303030303030303030302d313030382d303030342d303030302d30
      ∷ 0x786966223a22656d616e222c303a226469227b5b3a2273656e6974756f72222c
      ∷ 0x6f63227b5b3a2273676e7572222c5d7d2272223a2264697575222c2265727574
      ∷ 0x7473222c303a2264695f656e6974756f72222c303a226469222c323a22746e75
      ∷ 0x7b5b3a2273676174222c5d7d22676e7572223a2264697575222c303a22747261
      ∷ 0x7974222c303a2264695f656d69746e7572222c2265746167223a22656d616e22
      ∷ 0x303030302d3030303030303030223a2264697575222c224c4f4f42223a226570
      ∷ 0x656d616e227b2c7d223030303030303030303030302d303030382d303030342d
      ∷ 0x65707974222c313a2264695f656d69746e7572222c227265746e756f63223a22
      ∷ 0x3030302d3030303030303030223a2264697575222c225245544e554f43223a22
      ∷ 0x6f63225b7d5d7d223130303030303030303030302d303030382d303030342d30
      ∷ 0x2c303a2265746174735f68636e617262227b5d2265746167222c227265746e75
      ∷ 0x6174735f646e616d6d6f63222c383a22676e696b636172745f65676e61686322
      ∷ 0x766f5f6563726f66222c30323a22737265746e756f63222c34363a22676e6967
      ∷ 0x7274736e69222c313a226567616d695f7475706e69222c343a227379616c7265
      ∷ 0x3a226567616d695f74757074756f222c36313a2265746174735f6e6f69746375
      ∷ 0x6e7572222c3737313a2273657479625f616e6572615f656d69746e7572222c31
      ∷ 0x616373222c34363a22646165687265766f5f6572757463757274735f656d6974
      ∷ 0x0000000001000000027d303a227372656d6974222c313a22736761745f72616c
      ∷ 0x0000000000800000000000000100000005000000000000000000000000000000 ∷ [])
    ++ row 19 0x00000002000000000000000000000001000000

abbrev assertions_6_0 : List Assertion
assertions_6_0 =
    assertion 1 1 (dint (pos 1))
    ∷ assertion 1 2 (dint (negsuc 2147483647))
    ∷ assertion 1 7 (boolean 0)
    ∷ []

abbrev assertions_6_1 : List Assertion
assertions_6_1 = assertion 1 2 (dint (negsuc 2147483647)) ∷ assertion 1 7 (boolean 0) ∷ []

abbrev assertions_6_2 : List Assertion
assertions_6_2 = assertion 0 0 (boolean 1) ∷ []

abbrev assertions_6_3 : List Assertion
assertions_6_3 =
    assertion 1 2 (dint (pos 2147483647))
    ∷ assertion 1 7 (boolean 1)
    ∷ assertion 1 5 (boolean 1)
    ∷ assertion 1 9 (boolean 1)
    ∷ []

abbrev assertions_6_4 : List Assertion
assertions_6_4 = assertion 1 2 (dint (pos 2147483647)) ∷ []

abbrev assertions_6_5 : List Assertion
assertions_6_5 = assertion 0 0 (boolean 0) ∷ []

abbrev assertions_6_6 : List Assertion
assertions_6_6 = assertion 1 7 (boolean 0) ∷ []

abbrev assertions_6_7 : List Assertion
assertions_6_7 = assertion 0 0 (boolean 1) ∷ []

abbrev assertions_6_8 : List Assertion
assertions_6_8 = assertion 1 2 (dint (pos 2147483646)) ∷ assertion 1 5 (boolean 1) ∷ []

abbrev steps_6 : List FixtureStep
steps_6 =
    step 5 0 0 (boolean 0) 0 (pos 1) 18446744073709551615 (negsuc 0) 0 (negsuc 0) assertions_6_0 []
      [] [] 0 []
    ∷ step 3 1000 0 (boolean 0) 0 (negsuc 0) 18446744073709551615 (negsuc 0) 0 (negsuc 0)
        assertions_6_1 [] [] [] 0 []
    ∷ step 4 2000 0 (boolean 1) 0 (negsuc 0) 18446744073709551615 (negsuc 0) 0 (negsuc 0)
        assertions_6_2 [] [] [] 0 []
    ∷ step 3 3000 0 (boolean 0) 0 (negsuc 0) 18446744073709551615 (negsuc 0) 0 (negsuc 0)
        assertions_6_3 [] [] [] 0 []
    ∷ step 3 4000 0 (boolean 0) 0 (negsuc 0) 18446744073709551615 (negsuc 0) 0 (negsuc 0)
        assertions_6_4 [] [] [] 0 []
    ∷ step 4 5000 0 (boolean 0) 0 (negsuc 0) 18446744073709551615 (negsuc 0) 0 (negsuc 0)
        assertions_6_5 [] [] [] 0 []
    ∷ step 3 6000 0 (boolean 0) 0 (negsuc 0) 18446744073709551615 (negsuc 0) 0 (negsuc 0)
        assertions_6_6 [] [] [] 0 []
    ∷ step 4 7000 0 (boolean 1) 0 (negsuc 0) 18446744073709551615 (negsuc 0) 0 (negsuc 0)
        assertions_6_7 [] [] [] 0 []
    ∷ step 3 8000 0 (boolean 0) 0 (negsuc 0) 18446744073709551615 (negsuc 0) 0 (negsuc 0)
        assertions_6_8 [] [] [] 0 []
    ∷ []

abbrev ctd_rollover_core_001 : Fixture
ctd_rollover_core_001 = record {
  id = "ctd-rollover-core-001";
  instruction = "CTD";
  image = image_6;
  steps = steps_6;
}

-- The fixture passes, whatever the operations on REAL do.
ctd_rollover_core_001-passes : (fl : Floats) → passes fl ctd_rollover_core_001 ≡ true
unfolding passes
ctd_rollover_core_001-passes fl = refl
