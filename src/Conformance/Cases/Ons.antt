-- ===== src/Conformance/Cases/Ons.antt =====
-- The fixture ons-core-001 of runtime/generated/rsm_conformance_fixtures.c.
use rsmicro.Prelude.{List, [], ◌∷◌, ◌++◌, ◌≡◌, refl, true}
use rsmicro.Prelude.Int.{pos, negsuc}
use rsmicro.Core.Words.{Bytes}
use rsmicro.Core.Types.{Floats, boolean}
use rsmicro.Conformance.Fixture.{Assertion, FixtureStep, Fixture, row, rows, assertion, step}
use rsmicro.Conformance.Runner.{passes}

abbrev image_22 : Bytes
image_22 =
    rows (
      0x000000800040000000000000001000020000000100000a5800480002314d5352
      ∷ 0x2489be8532ac6a3af420e400837513016b006dbe7f3f032a82c132d601000000
      ∷ 0x0000000200000000000000000000022f0000018800000001b1526625d6cd2be4
      ∷ 0x0000000000000002000003cf00000003000000000000000000000018000003b7
      ∷ 0x000003d300000005000000000000000000000002000003d10000000400000000
      ∷ 0x000000000000000000000026000003dd0000000600000000000000000000000a
      ∷ 0x000000500000043e0000000800000000000000000000003b0000040300000007
      ∷ 0x0000000a0000000000000000000000020000048e000000090000000000000000
      ∷ 0x0000000000000002000004920000000b00000000000000000000000200000490
      ∷ 0x000008e80000000d000000000000000000000454000004940000000c00000000
      ∷ 0x0000000000000000000000e80000090c0000000e000000000000000000000024
      ∷ 0x0000001000000a4800000010000000000000000000000054000009f40000000f
      ∷ 0x2c657572743a226c616974696e69222c303a226469227b5b0000000000000000
      ∷ 0x73222c65736c61663a22657669746e65746572222c226e69223a22656d616e22
      ∷ 0x224c4f4f42223a2265707974222c224c414e5245544e49223a22656761726f74
      ∷ 0x303030382d303030342d303030302d3030303030303030223a2264697575222c
      ∷ 0x6c616974696e69222c313a226469227b2c7d223030303030303030303030302d
      ∷ 0x65746572222c22615f656761726f7473223a22656d616e222c65736c61663a22
      ∷ 0x4c414e5245544e49223a22656761726f7473222c65736c61663a22657669746e
      ∷ 0x3030303030303030223a2264697575222c224c4f4f42223a2265707974222c22
      ∷ 0x7b2c7d223130303030303030303030302d303030382d303030342d303030302d
      ∷ 0x73223a22656d616e222c65736c61663a226c616974696e69222c323a22646922
      ∷ 0x6f7473222c65736c61663a22657669746e65746572222c22625f656761726f74
      ∷ 0x222c224c4f4f42223a2265707974222c224c414e5245544e49223a2265676172
      ∷ 0x302d303030382d303030342d303030302d3030303030303030223a2264697575
      ∷ 0x3a226c616974696e69222c333a226469227b2c7d223230303030303030303030
      ∷ 0x663a22657669746e65746572222c2274756f223a22656d616e222c65736c6166
      ∷ 0x2265707974222c224c414e5245544e49223a22656761726f7473222c65736c61
      ∷ 0x30342d303030302d3030303030303030223a2264697575222c224c4f4f42223a
      ∷ 0x6c61662c657572745b5d7d223330303030303030303030302d303030382d3030
      ∷ 0x227b5b5d7d303a226469227b5b5d5b5d5b5d65736c61662c65736c61662c6573
      ∷ 0x72223a2264697575222c2265727574786966223a22656d616e222c303a226469
      ∷ 0x695f656e6974756f72222c303a226469222c343a22746e756f63227b5b5d7d22
      ∷ 0x01015d7d22676e7572223a2264697575222c303a227472617473222c303a2264
      ∷ 0x0101ffffffff00000001000001060000000000000101ffffffff000000000000
      ∷ 0x0003000001030000000200000101ffffffff0000000200000106000000010000
      ∷ 0x6f697463757274736e69227b5d5b5d5b5d5b0000000300000101ffffffff0000
      ∷ 0x3a2265646f63706f222c22434958223a2263696e6f6d656e6d227b5b3a22736e
      ∷ 0x223a22687461705f656372756f73222c303a2264695f656d69746e7572222c31
      ∷ 0x735f6574617473222c22302f3130302d65726f632d736e6f2f65727574786966
      ∷ 0x2d303030302d3030303030303030223a2264697575222c6c6c756e3a22746f6c
      ∷ 0x6f6d656e6d227b2c7d223030303030303030303030302d313030382d30303034
      ∷ 0x695f656d69746e7572222c363a2265646f63706f222c22534e4f223a2263696e
      ∷ 0x2d736e6f2f65727574786966223a22687461705f656372756f73222c313a2264
      ∷ 0x75222c6c6c756e3a22746f6c735f6574617473222c22312f3130302d65726f63
      ∷ 0x30302d313030382d303030342d303030302d3030303030303030223a22646975
      ∷ 0x222c22534e4f223a2263696e6f6d656e6d227b2c7d2231303030303030303030
      ∷ 0x656372756f73222c323a2264695f656d69746e7572222c363a2265646f63706f
      ∷ 0x2c22322f3130302d65726f632d736e6f2f65727574786966223a22687461705f
      ∷ 0x303030303030223a2264697575222c6c6c756e3a22746f6c735f657461747322
      ∷ 0x7d223230303030303030303030302d313030382d303030342d303030302d3030
      ∷ 0x72222c333a2265646f63706f222c2245544f223a2263696e6f6d656e6d227b2c
      ∷ 0x74786966223a22687461705f656372756f73222c333a2264695f656d69746e75
      ∷ 0x22746f6c735f6574617473222c22332f3130302d65726f632d736e6f2f657275
      ∷ 0x303030342d303030302d3030303030303030223a2264697575222c6c6c756e3a
      ∷ 0x2273656e6974756f72222c5d7d223330303030303030303030302d313030382d
      ∷ 0x64697575222c2265727574786966223a22656d616e222c303a226469227b5b3a
      ∷ 0x226469222c343a22746e756f63227b5b3a2273676e7572222c5d7d2272223a22
      ∷ 0x697575222c303a227472617473222c303a2264695f656e6974756f72222c303a
      ∷ 0x226e69223a22656d616e227b5b3a2273676174222c5d7d22676e7572223a2264
      ∷ 0x75222c224c4f4f42223a2265707974222c303a2264695f656d69746e7572222c
      ∷ 0x30302d303030382d303030342d303030302d3030303030303030223a22646975
      ∷ 0x22615f656761726f7473223a22656d616e227b2c7d2230303030303030303030
      ∷ 0x75222c224c4f4f42223a2265707974222c313a2264695f656d69746e7572222c
      ∷ 0x30302d303030382d303030342d303030302d3030303030303030223a22646975
      ∷ 0x22625f656761726f7473223a22656d616e227b2c7d2231303030303030303030
      ∷ 0x75222c224c4f4f42223a2265707974222c323a2264695f656d69746e7572222c
      ∷ 0x30302d303030382d303030342d303030302d3030303030303030223a22646975
      ∷ 0x746e7572222c2274756f223a22656d616e227b2c7d2232303030303030303030
      ∷ 0x223a2264697575222c224c4f4f42223a2265707974222c333a2264695f656d69
      ∷ 0x30303030303030302d303030382d303030342d303030302d3030303030303030
      ∷ 0x2c22615f656761726f7473222c2274756f222c226e69225b7d5d7d2233303030
      ∷ 0x63222c303a2265746174735f68636e617262227b5d22625f656761726f747322
      ∷ 0x676174735f646e616d6d6f63222c36313a22676e696b636172745f65676e6168
      ∷ 0x7265766f5f6563726f66222c303a22737265746e756f63222c34363a22676e69
      ∷ 0x63757274736e69222c343a226567616d695f7475706e69222c383a227379616c
      ∷ 0x222c343a226567616d695f74757074756f222c303a2265746174735f6e6f6974
      ∷ 0x6d69746e7572222c3635313a2273657479625f616e6572615f656d69746e7572
      ∷ 0x72616c616373222c34363a22646165687265766f5f6572757463757274735f65
      ∷ 0x0000000100000001000000047d303a227372656d6974222c343a22736761745f
      ∷ 0x0000000000000000000000000000000000000001000000000000000000000000
      ∷ 0x0000000000000000000000010000000000000000000000000000000000000001 ∷ [])
    ++ row 24 0x000000040000000000000000000000010000000000000000

abbrev assertions_22_0 : List Assertion
assertions_22_0 =
    assertion 1 0 (boolean 1) ∷ assertion 2 0 (boolean 1) ∷ assertion 3 0 (boolean 0) ∷ []

abbrev assertions_22_1 : List Assertion
assertions_22_1 = assertion 3 0 (boolean 0) ∷ []

abbrev assertions_22_2 : List Assertion
assertions_22_2 = assertion 0 0 (boolean 0) ∷ []

abbrev assertions_22_3 : List Assertion
assertions_22_3 =
    assertion 1 0 (boolean 0) ∷ assertion 2 0 (boolean 0) ∷ assertion 3 0 (boolean 0) ∷ []

abbrev assertions_22_4 : List Assertion
assertions_22_4 = assertion 0 0 (boolean 1) ∷ []

abbrev assertions_22_5 : List Assertion
assertions_22_5 =
    assertion 1 0 (boolean 1) ∷ assertion 2 0 (boolean 1) ∷ assertion 3 0 (boolean 1) ∷ []

abbrev assertions_22_6 : List Assertion
assertions_22_6 =
    assertion 1 0 (boolean 1) ∷ assertion 2 0 (boolean 0) ∷ assertion 3 0 (boolean 0) ∷ []

abbrev assertions_22_7 : List Assertion
assertions_22_7 = assertion 3 0 (boolean 0) ∷ []

abbrev steps_22 : List FixtureStep
steps_22 =
    step 1 0 0 (boolean 0) 0 (pos 0) 0 (negsuc 0) 0 (negsuc 0) assertions_22_0 [] [] [] 0 []
    ∷ step 5 1000 0 (boolean 0) 0 (pos 1) 18446744073709551615 (negsuc 0) 0 (negsuc 0)
        assertions_22_1 [] [] [] 0 []
    ∷ step 4 2000 0 (boolean 0) 0 (negsuc 0) 18446744073709551615 (negsuc 0) 0 (negsuc 0)
        assertions_22_2 [] [] [] 0 []
    ∷ step 3 3000 0 (boolean 0) 0 (negsuc 0) 1 (negsuc 0) 0 (negsuc 0) assertions_22_3 [] [] [] 0 []
    ∷ step 4 4000 0 (boolean 1) 0 (negsuc 0) 18446744073709551615 (negsuc 0) 0 (negsuc 0)
        assertions_22_4 [] [] [] 0 []
    ∷ step 3 5000 0 (boolean 0) 0 (negsuc 0) 2 (negsuc 0) 0 (negsuc 0) assertions_22_5 [] [] [] 0 []
    ∷ step 3 6000 0 (boolean 0) 0 (negsuc 0) 3 (negsuc 0) 0 (negsuc 0) assertions_22_6 [] [] [] 0 []
    ∷ step 6 7000 0 (boolean 0) 0 (pos 0) 18446744073709551615 (negsuc 0) 0 (negsuc 0)
        assertions_22_7 [] [] [] 0 []
    ∷ []

abbrev ons_core_001 : Fixture
ons_core_001 = record {
  id = "ons-core-001";
  instruction = "ONS";
  image = image_22;
  steps = steps_22;
}

-- The fixture passes, whatever the operations on REAL do.
ons_core_001-passes : (fl : Floats) → passes fl ons_core_001 ≡ true
unfolding passes
ons_core_001-passes fl = refl
