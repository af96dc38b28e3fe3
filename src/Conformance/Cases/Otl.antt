-- ===== src/Conformance/Cases/Otl.antt =====
-- The fixture otl-core-001 of runtime/generated/rsm_conformance_fixtures.c.
use rsmicro.Prelude.{List, [], ◌∷◌, ◌++◌, ◌≡◌, refl, true}
use rsmicro.Prelude.Int.{pos, negsuc}
use rsmicro.Core.Words.{Bytes}
use rsmicro.Core.Types.{Floats, boolean}
use rsmicro.Conformance.Fixture.{Assertion, FixtureStep, Fixture, row, rows, assertion, step}
use rsmicro.Conformance.Runner.{passes}

abbrev image_24 : Bytes
image_24 =
    rows (
      0x0000008000400000000000000010000200000001000006e300480002314d5352
      ∷ 0x9f08cb9105d1949a48a7b493c81ea926e20918d524b82344da2a5d4401000000
      ∷ 0x000000020000000000000000000001130000018800000001ce35946aff7c4772
      ∷ 0x0000000000000002000002a70000000300000000000000000000000c0000029b
      ∷ 0x000002ab00000005000000000000000000000002000002a90000000400000000
      ∷ 0x000000000000000000000026000002b50000000600000000000000000000000a
      ∷ 0x00000028000003160000000800000000000000000000003b000002db00000007
      ∷ 0x0000000a0000000000000000000000020000033e000000090000000000000000
      ∷ 0x0000000000000002000003420000000b00000000000000000000000200000340
      ∷ 0x000005b20000000d00000000000000000000026e000003440000000c00000000
      ∷ 0x0000000000000000000000e7000005c00000000e00000000000000000000000e
      ∷ 0x00000010000006d30000001000000000000000000000002c000006a70000000f
      ∷ 0x2c657572743a226c616974696e69222c303a226469227b5b0000000000000000
      ∷ 0x2c65736c61663a22657669746e65746572222c2265746167223a22656d616e22
      ∷ 0x4f4f42223a2265707974222c224c414e5245544e49223a22656761726f747322
      ∷ 0x30382d303030342d303030302d3030303030303030223a2264697575222c224c
      ∷ 0x6974696e69222c313a226469227b2c7d223030303030303030303030302d3030
      ∷ 0x7669746e65746572222c2274756f223a22656d616e222c65736c61663a226c61
      ∷ 0x74222c224c414e5245544e49223a22656761726f7473222c65736c61663a2265
      ∷ 0x3030302d3030303030303030223a2264697575222c224c4f4f42223a22657079
      ∷ 0x657572745b5d7d223130303030303030303030302d303030382d303030342d30
      ∷ 0x6e222c303a226469227b5b5d7d303a226469227b5b5d5b5d5b5d65736c61662c
      ∷ 0x6f63227b5b5d7d2272223a2264697575222c2265727574786966223a22656d61
      ∷ 0x7473222c303a2264695f656e6974756f72222c303a226469222c323a22746e75
      ∷ 0xffff00000000000001015d7d22676e7572223a2264697575222c303a22747261
      ∷ 0x5d5b0000000100000101ffffffff00000001000001040000000000000101ffff
      ∷ 0x2263696e6f6d656e6d227b5b3a22736e6f697463757274736e69227b5d5b5d5b
      ∷ 0x303a2264695f656d69746e7572222c313a2265646f63706f222c22434958223a
      ∷ 0x65726f632d6c746f2f65727574786966223a22687461705f656372756f73222c
      ∷ 0x2264697575222c6c6c756e3a22746f6c735f6574617473222c22302f3130302d
      ∷ 0x3030303030302d313030382d303030342d303030302d3030303030303030223a
      ∷ 0x6f63706f222c224c544f223a2263696e6f6d656e6d227b2c7d22303030303030
      ∷ 0x7461705f656372756f73222c313a2264695f656d69746e7572222c343a226564
      ∷ 0x617473222c22312f3130302d65726f632d6c746f2f65727574786966223a2268
      ∷ 0x302d3030303030303030223a2264697575222c6c6c756e3a22746f6c735f6574
      ∷ 0x72222c5d7d223130303030303030303030302d313030382d303030342d303030
      ∷ 0x727574786966223a22656d616e222c303a226469227b5b3a2273656e6974756f
      ∷ 0x746e756f63227b5b3a2273676e7572222c5d7d2272223a2264697575222c2265
      ∷ 0x7472617473222c303a2264695f656e6974756f72222c303a226469222c323a22
      ∷ 0x616e227b5b3a2273676174222c5d7d22676e7572223a2264697575222c303a22
      ∷ 0x2265707974222c303a2264695f656d69746e7572222c2265746167223a22656d
      ∷ 0x30342d303030302d3030303030303030223a2264697575222c224c4f4f42223a
      ∷ 0x223a22656d616e227b2c7d223030303030303030303030302d303030382d3030
      ∷ 0x4c4f4f42223a2265707974222c313a2264695f656d69746e7572222c2274756f
      ∷ 0x3030382d303030342d303030302d3030303030303030223a2264697575222c22
      ∷ 0x5d2274756f222c2265746167225b7d5d7d223130303030303030303030302d30
      ∷ 0x696b636172745f65676e616863222c303a2265746174735f68636e617262227b
      ∷ 0x6e756f63222c34363a22676e69676174735f646e616d6d6f63222c383a22676e
      ∷ 0x75706e69222c343a227379616c7265766f5f6563726f66222c303a2273726574
      ∷ 0x303a2265746174735f6e6f697463757274736e69222c323a226567616d695f74
      ∷ 0x616e6572615f656d69746e7572222c323a226567616d695f74757074756f222c
      ∷ 0x6f5f6572757463757274735f656d69746e7572222c3234313a2273657479625f
      ∷ 0x6d6974222c323a22736761745f72616c616373222c34363a2264616568726576
      ∷ 0x010000000000000000000000000000000100000001000000027d303a22737265
      ∷ 0x0200000000000000000000000100000000000000000000000000000000000000 ∷ [])
    ++ row 3 0x000000

abbrev assertions_24_0 : List Assertion
assertions_24_0 = assertion 1 0 (boolean 0) ∷ []

abbrev assertions_24_1 : List Assertion
assertions_24_1 = assertion 1 0 (boolean 1) ∷ []

abbrev assertions_24_2 : List Assertion
assertions_24_2 = assertion 0 0 (boolean 0) ∷ assertion 1 0 (boolean 1) ∷ []

abbrev assertions_24_3 : List Assertion
assertions_24_3 = assertion 1 0 (boolean 1) ∷ []

abbrev assertions_24_4 : List Assertion
assertions_24_4 = assertion 1 0 (boolean 1) ∷ []

abbrev assertions_24_5 : List Assertion
assertions_24_5 = assertion 1 0 (boolean 0) ∷ []

abbrev assertions_24_6 : List Assertion
assertions_24_6 = assertion 1 0 (boolean 1) ∷ []

abbrev steps_24 : List FixtureStep
steps_24 =
    step 5 0 0 (boolean 0) 0 (pos 1) 18446744073709551615 (negsuc 0) 0 (negsuc 0) assertions_24_0 []
      [] [] 0 []
    ∷ step 3 1000 0 (boolean 0) 0 (negsuc 0) 18446744073709551615 (negsuc 0) 0 (negsuc 0)
        assertions_24_1 [] [] [] 0 []
    ∷ step 4 2000 0 (boolean 0) 0 (negsuc 0) 18446744073709551615 (negsuc 0) 0 (negsuc 0)
        assertions_24_2 [] [] [] 0 []
    ∷ step 3 3000 0 (boolean 0) 0 (negsuc 0) 18446744073709551615 (negsuc 0) 0 (negsuc 0)
        assertions_24_3 [] [] [] 0 []
    ∷ step 2 4000 0 (boolean 0) 0 (negsuc 0) 18446744073709551615 (negsuc 0) 0 (negsuc 0)
        assertions_24_4 [] [] [] 0 []
    ∷ step 8 5000 1 (boolean 0) 0 (negsuc 0) 18446744073709551615 (negsuc 0) 0 (negsuc 0)
        assertions_24_5 [] [] [] 0 []
    ∷ step 9 6000 1 (boolean 0) 0 (negsuc 0) 18446744073709551615 (negsuc 0) 0 (negsuc 0)
        assertions_24_6 [] [] [] 0 []
    ∷ []

abbrev otl_core_001 : Fixture
otl_core_001 = record {
  id = "otl-core-001";
  instruction = "OTL";
  image = image_24;
  steps = steps_24;
}

-- The fixture passes, whatever the operations on REAL do.
otl_core_001-passes : (fl : Floats) → passes fl otl_core_001 ≡ true
unfolding passes
otl_core_001-passes fl = refl
