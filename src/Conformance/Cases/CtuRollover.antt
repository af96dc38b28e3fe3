-- ===== src/Conformance/Cases/CtuRollover.antt =====
-- The fixture ctu-rollover-core-001 of runtime/generated/rsm_conformance_fixtures.c.
use rsmicro.Prelude.{List, [], ◌∷◌, ◌++◌, ◌≡◌, refl, true}
use rsmicro.Prelude.Int.{pos, negsuc}
use rsmicro.Core.Words.{Bytes}
use rsmicro.Core.Types.{Floats, boolean, dint}
use rsmicro.Conformance.Fixture.{Assertion, FixtureStep, Fixture, row, rows, assertion, step}
use rsmicro.Conformance.Runner.{passes}

abbrev image_8 : Bytes
image_8 =
    rows (
      0x00000080004000000000000000100002000000010000075100480002314d5352
      ∷ 0x49f764bbae08251f9765f509c3cbcf5cf6d5115d45ba3aca9cba501301000000
      ∷ 0x000000020000000000000000000001300000018800000001e17d4baf85b973c9
      ∷ 0x0000000000000002000002da00000003000000000000000000000022000002b8
      ∷ 0x000002df00000005000000000000000000000003000002dc0000000400000000
      ∷ 0x000000000000000000000026000002e90000000600000000000000000000000a
      ∷ 0x000000280000034a0000000800000000000000000000003b0000030f00000007
      ∷ 0x0000000a00000000000000000000001f00000372000000090000000000000000
      ∷ 0x0000000000000002000003930000000b00000000000000000000000200000391
      ∷ 0x0000061a0000000d000000000000000000000285000003950000000c00000000
      ∷ 0x0000000000000000000000e90000062c0000000e000000000000000000000012
      ∷ 0x00000010000007410000001000000000000000000000002c000007150000000f
      ∷ 0x65736c61663a226c616974696e69222c303a226469227b5b0000000000000000
      ∷ 0x65736c61663a22657669746e65746572222c2265746167223a22656d616e222c
      ∷ 0x4f42223a2265707974222c224c414e5245544e49223a22656761726f7473222c
      ∷ 0x382d303030342d303030302d3030303030303030223a2264697575222c224c4f
      ∷ 0x74696e69222c313a226469227b2c7d223030303030303030303030302d303030
      ∷ 0x2c7d313a22455250222c373436333834373431323a22434341227b3a226c6169
      ∷ 0x6c61663a22657669746e65746572222c227265746e756f63223a22656d616e22
      ∷ 0x223a2265707974222c224c414e5245544e49223a22656761726f7473222c6573
      ∷ 0x342d303030302d3030303030303030223a2264697575222c225245544e554f43
      ∷ 0x7b2c65736c61665b5d7d223130303030303030303030302d303030382d303030
      ∷ 0x5b5d315b5d5b5d7d313a22455250222c373436333834373431323a2243434122
      ∷ 0x727574786966223a22656d616e222c303a226469227b5b5d7d303a226469227b
      ∷ 0x3a226469222c323a22746e756f63227b5b5d7d2272223a2264697575222c2265
      ∷ 0x64697575222c303a227472617473222c303a2264695f656e6974756f72222c30
      ∷ 0x01110000000000000101ffffffff00000000000001015d7d22676e7572223a22
      ∷ 0x6e6f697463757274736e69227b5b000000010000050100000000000000010000
      ∷ 0x697463757274736e69227b5d5b5d5b5d7d303a22746f6c73222c313a2264695f
      ∷ 0x2265646f63706f222c22434958223a2263696e6f6d656e6d227b5b3a22736e6f
      ∷ 0x3a22687461705f656372756f73222c303a2264695f656d69746e7572222c313a
      ∷ 0x302f3130302d65726f632d7265766f6c6c6f722d7574632f6572757478696622
      ∷ 0x30303030223a2264697575222c6c6c756e3a22746f6c735f6574617473222c22
      ∷ 0x3030303030303030303030302d313030382d303030342d303030302d30303030
      ∷ 0x37313a2265646f63706f222c22555443223a2263696e6f6d656e6d227b2c7d22
      ∷ 0x66223a22687461705f656372756f73222c313a2264695f656d69746e7572222c
      ∷ 0x2c22312f3130302d65726f632d7265766f6c6c6f722d7574632f657275747869
      ∷ 0x2d3030303030303030223a2264697575222c303a22746f6c735f657461747322
      ∷ 0x222c5d7d223130303030303030303030302d313030382d303030342d30303030
      ∷ 0x7574786966223a22656d616e222c303a226469227b5b3a2273656e6974756f72
      ∷ 0x6e756f63227b5b3a2273676e7572222c5d7d2272223a2264697575222c226572
      ∷ 0x72617473222c303a2264695f656e6974756f72222c303a226469222c323a2274
      ∷ 0x6e227b5b3a2273676174222c5d7d22676e7572223a2264697575222c303a2274
      ∷ 0x65707974222c303a2264695f656d69746e7572222c2265746167223a22656d61
      ∷ 0x342d303030302d3030303030303030223a2264697575222c224c4f4f42223a22
      ∷ 0x3a22656d616e227b2c7d223030303030303030303030302d303030382d303030
      ∷ 0x3a2265707974222c313a2264695f656d69746e7572222c227265746e756f6322
      ∷ 0x2d303030302d3030303030303030223a2264697575222c225245544e554f4322
      ∷ 0x6e756f63225b7d5d7d223130303030303030303030302d303030382d30303034
      ∷ 0x63222c303a2265746174735f68636e617262227b5d2265746167222c22726574
      ∷ 0x69676174735f646e616d6d6f63222c383a22676e696b636172745f65676e6168
      ∷ 0x7265766f5f6563726f66222c30323a22737265746e756f63222c34363a22676e
      ∷ 0x63757274736e69222c313a226567616d695f7475706e69222c343a227379616c
      ∷ 0x2c313a226567616d695f74757074756f222c36313a2265746174735f6e6f6974
      ∷ 0x69746e7572222c3737313a2273657479625f616e6572615f656d69746e757222
      ∷ 0x616c616373222c34363a22646165687265766f5f6572757463757274735f656d
      ∷ 0x00000000000001000000027d303a227372656d6974222c313a22736761745f72
      ∷ 0x000000000000007fffffff000000010000000500000000000000000000000000 ∷ [])
    ++ row 17 0x0000000200000000000000000000000100

abbrev assertions_8_0 : List Assertion
assertions_8_0 =
    assertion 1 1 (dint (pos 1))
    ∷ assertion 1 2 (dint (pos 2147483647))
    ∷ assertion 1 6 (boolean 0)
    ∷ []

abbrev assertions_8_1 : List Assertion
assertions_8_1 = assertion 1 2 (dint (pos 2147483647)) ∷ assertion 1 6 (boolean 0) ∷ []

abbrev assertions_8_2 : List Assertion
assertions_8_2 = assertion 0 0 (boolean 1) ∷ []

abbrev assertions_8_3 : List Assertion
assertions_8_3 =
    assertion 1 2 (dint (negsuc 2147483647))
    ∷ assertion 1 6 (boolean 1)
    ∷ assertion 1 5 (boolean 0)
    ∷ assertion 1 8 (boolean 1)
    ∷ []

abbrev assertions_8_4 : List Assertion
assertions_8_4 = assertion 1 2 (dint (negsuc 2147483647)) ∷ []

abbrev assertions_8_5 : List Assertion
assertions_8_5 = assertion 0 0 (boolean 0) ∷ []

abbrev assertions_8_6 : List Assertion
assertions_8_6 = assertion 1 6 (boolean 0) ∷ []

abbrev assertions_8_7 : List Assertion
assertions_8_7 = assertion 0 0 (boolean 1) ∷ []

abbrev assertions_8_8 : List Assertion
assertions_8_8 = assertion 1 2 (dint (negsuc 2147483646)) ∷ assertion 1 5 (boolean 0) ∷ []

abbrev steps_8 : List FixtureStep
steps_8 =
    step 5 0 0 (boolean 0) 0 (pos 1) 18446744073709551615 (negsuc 0) 0 (negsuc 0) assertions_8_0 []
      [] [] 0 []
    ∷ step 3 1000 0 (boolean 0) 0 (negsuc 0) 18446744073709551615 (negsuc 0) 0 (negsuc 0)
        assertions_8_1 [] [] [] 0 []
    ∷ step 4 2000 0 (boolean 1) 0 (negsuc 0) 18446744073709551615 (negsuc 0) 0 (negsuc 0)
        assertions_8_2 [] [] [] 0 []
    ∷ step 3 3000 0 (boolean 0) 0 (negsuc 0) 18446744073709551615 (negsuc 0) 0 (negsuc 0)
        assertions_8_3 [] [] [] 0 []
    ∷ step 3 4000 0 (boolean 0) 0 (negsuc 0) 18446744073709551615 (negsuc 0) 0 (negsuc 0)
        assertions_8_4 [] [] [] 0 []
    ∷ step 4 5000 0 (boolean 0) 0 (negsuc 0) 18446744073709551615 (negsuc 0) 0 (negsuc 0)
        assertions_8_5 [] [] [] 0 []
    ∷ step 3 6000 0 (boolean 0) 0 (negsuc 0) 18446744073709551615 (negsuc 0) 0 (negsuc 0)
        assertions_8_6 [] [] [] 0 []
    ∷ step 4 7000 0 (boolean 1) 0 (negsuc 0) 18446744073709551615 (negsuc 0) 0 (negsuc 0)
        assertions_8_7 [] [] [] 0 []
    ∷ step 3 8000 0 (boolean 0) 0 (negsuc 0) 18446744073709551615 (negsuc 0) 0 (negsuc 0)
        assertions_8_8 [] [] [] 0 []
    ∷ []

abbrev ctu_rollover_core_001 : Fixture
ctu_rollover_core_001 = record {
  id = "ctu-rollover-core-001";
  instruction = "CTU";
  image = image_8;
  steps = steps_8;
}

-- The fixture passes, whatever the operations on REAL do.
ctu_rollover_core_001-passes : (fl : Floats) → passes fl ctu_rollover_core_001 ≡ true
unfolding passes
ctu_rollover_core_001-passes fl = refl
