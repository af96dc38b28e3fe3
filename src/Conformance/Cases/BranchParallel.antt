-- ===== src/Conformance/Cases/BranchParallel.antt =====
-- The fixture branch-parallel-core-001 of runtime/generated/rsm_conformance_fixtures.c.
use rsmicro.Prelude.{List, [], ◌∷◌, ◌++◌, ◌≡◌, refl, true}
use rsmicro.Prelude.Int.{pos, negsuc}
use rsmicro.Core.Words.{Bytes}
use rsmicro.Core.Types.{Floats, boolean}
use rsmicro.Conformance.Fixture.{Assertion, FixtureStep, Fixture, row, rows, assertion, step}
use rsmicro.Conformance.Runner.{passes}

abbrev image_3 : Bytes
image_3 =
    rows (
      0x00000080004000000000000000100002000000010000135400480002314d5352
      ∷ 0x2cdb6ecec97d46cb2092bc34af044c590158f0084e2719b2984f546201000000
      ∷ 0x000000020000000000000000000002a80000018800000001ab070474fc239458
      ∷ 0x00000000000000020000044c0000000300000000000000000000001c00000430
      ∷ 0x00000450000000050000000000000000000000020000044e0000000400000000
      ∷ 0x0000000000000000000000260000045a0000000600000000000000000000000a
      ∷ 0x000000ec000004bc0000000800000000000000000000003c0000048000000007
      ∷ 0x0000000a000000000000000000000002000005a8000000090000000000000000
      ∷ 0x0000000000000002000005ac0000000b000000000000000000000002000005aa
      ∷ 0x000011d70000000d000000000000000000000c29000005ae0000000c00000000
      ∷ 0x0000000000000000000000e9000011f30000000e00000000000000000000001c
      ∷ 0x000000100000134400000010000000000000000000000068000012dc0000000f
      ∷ 0x2c657572743a226c616974696e69222c303a226469227b5b0000000000000000
      ∷ 0x222c65736c61663a22657669746e65746572222c22657270223a22656d616e22
      ∷ 0x4c4f4f42223a2265707974222c224c414e5245544e49223a22656761726f7473
      ∷ 0x3030382d303030342d303030302d3030303030303030223a2264697575222c22
      ∷ 0x616974696e69222c313a226469227b2c7d223030303030303030303030302d30
      ∷ 0x3a22657669746e65746572222c2261223a22656d616e222c65736c61663a226c
      ∷ 0x65707974222c224c414e5245544e49223a22656761726f7473222c65736c6166
      ∷ 0x342d303030302d3030303030303030223a2264697575222c224c4f4f42223a22
      ∷ 0x2c323a226469227b2c7d223130303030303030303030302d303030382d303030
      ∷ 0x6e65746572222c2262223a22656d616e222c657572743a226c616974696e6922
      ∷ 0x224c414e5245544e49223a22656761726f7473222c65736c61663a2265766974
      ∷ 0x2d3030303030303030223a2264697575222c224c4f4f42223a2265707974222c
      ∷ 0x227b2c7d223230303030303030303030302d303030382d303030342d30303030
      ∷ 0x736f70223a22656d616e222c657572743a226c616974696e69222c333a226469
      ∷ 0x223a22656761726f7473222c65736c61663a22657669746e65746572222c2274
      ∷ 0x223a2264697575222c224c4f4f42223a2265707974222c224c414e5245544e49
      ∷ 0x30303030303030302d303030382d303030342d303030302d3030303030303030
      ∷ 0x222c65736c61663a226c616974696e69222c343a226469227b2c7d2233303030
      ∷ 0x73222c65736c61663a22657669746e65746572222c2274756f223a22656d616e
      ∷ 0x224c4f4f42223a2265707974222c224c414e5245544e49223a22656761726f74
      ∷ 0x303030382d303030342d303030302d3030303030303030223a2264697575222c
      ∷ 0x657572742c65736c61662c657572745b5d7d223430303030303030303030302d
      ∷ 0x226469227b5b5d7d303a226469227b5b5d5b5d5b5d65736c61662c657572742c
      ∷ 0x5d7d2272223a2264697575222c2265727574786966223a22656d616e222c303a
      ∷ 0x2264695f656e6974756f72222c303a226469222c35313a22746e756f63227b5b
      ∷ 0x000001015d7d22676e7572223a2264697575222c303a227472617473222c303a
      ∷ 0x000000f1ffffffff00000001000000f00000000000000101ffffffff00000000
      ∷ 0x000000f20000000100000101ffffffff0000000300000101ffffffff00000002
      ∷ 0xffffffff0000000600000101ffffffff00000005000000f1ffffffff00000004
      ∷ 0xffffffff00000008000000f1ffffffff00000007000000f20000000200000101
      ∷ 0xffffffff0000000a000001010000000100000101ffffffff0000000900000102
      ∷ 0xffffffff0000000c000000f3ffffffff0000000b000000f20000000200000101
      ∷ 0xffffffff0000000e000001030000000300000101ffffffff0000000d00000101
      ∷ 0x7b5b3a22736e6f697463757274736e69227b5d5b5d5b5d5b0000000400000101
      ∷ 0x6e7572222c313a2265646f63706f222c22434958223a2263696e6f6d656e6d22
      ∷ 0x727574786966223a22687461705f656372756f73222c303a2264695f656d6974
      ∷ 0x73222c22302f3130302d65726f632d6c656c6c617261702d68636e6172622f65
      ∷ 0x3030303030303030223a2264697575222c6c6c756e3a22746f6c735f65746174
      ∷ 0x7b2c7d223030303030303030303030302d313030382d303030342d303030302d
      ∷ 0x646f63706f222c224e494745425f48434e415242223a2263696e6f6d656e6d22
      ∷ 0x61705f656372756f73222c313a2264695f656d69746e7572222c3034323a2265
      ∷ 0x726f632d6c656c6c617261702d68636e6172622f65727574786966223a226874
      ∷ 0x64697575222c6c6c756e3a22746f6c735f6574617473222c22312f3130302d65
      ∷ 0x30303030302d313030382d303030342d303030302d3030303030303030223a22
      ∷ 0x414c5f48434e415242223a2263696e6f6d656e6d227b2c7d2231303030303030
      ∷ 0x5f656d69746e7572222c3134323a2265646f63706f222c224e494745425f454e
      ∷ 0x6172622f65727574786966223a22687461705f656372756f73222c323a226469
      ∷ 0x5f6574617473222c22322f3130302d65726f632d6c656c6c617261702d68636e
      ∷ 0x303030302d3030303030303030223a2264697575222c6c6c756e3a22746f6c73
      ∷ 0x6d656e6d227b2c7d223230303030303030303030302d313030382d303030342d
      ∷ 0x5f656d69746e7572222c313a2265646f63706f222c22434958223a2263696e6f
      ∷ 0x6172622f65727574786966223a22687461705f656372756f73222c333a226469
      ∷ 0x5f6574617473222c22332f3130302d65726f632d6c656c6c617261702d68636e
      ∷ 0x303030302d3030303030303030223a2264697575222c6c6c756e3a22746f6c73
      ∷ 0x6d656e6d227b2c7d223330303030303030303030302d313030382d303030342d
      ∷ 0x2265646f63706f222c22444e455f454e414c5f48434e415242223a2263696e6f
      ∷ 0x687461705f656372756f73222c343a2264695f656d69746e7572222c3234323a
      ∷ 0x2d65726f632d6c656c6c617261702d68636e6172622f65727574786966223a22
      ∷ 0x3a2264697575222c6c6c756e3a22746f6c735f6574617473222c22342f313030
      ∷ 0x303030303030302d313030382d303030342d303030302d303030303030303022
      ∷ 0x454e414c5f48434e415242223a2263696e6f6d656e6d227b2c7d223430303030
      ∷ 0x64695f656d69746e7572222c3134323a2265646f63706f222c224e494745425f
      ∷ 0x636e6172622f65727574786966223a22687461705f656372756f73222c353a22
      ∷ 0x6c735f6574617473222c22352f3130302d65726f632d6c656c6c617261702d68
      ∷ 0x342d303030302d3030303030303030223a2264697575222c6c6c756e3a22746f
      ∷ 0x6e6f6d656e6d227b2c7d223530303030303030303030302d313030382d303030
      ∷ 0x64695f656d69746e7572222c313a2265646f63706f222c22434958223a226369
      ∷ 0x636e6172622f65727574786966223a22687461705f656372756f73222c363a22
      ∷ 0x6c735f6574617473222c22362f3130302d65726f632d6c656c6c617261702d68
      ∷ 0x342d303030302d3030303030303030223a2264697575222c6c6c756e3a22746f
      ∷ 0x6e6f6d656e6d227b2c7d223630303030303030303030302d313030382d303030
      ∷ 0x323a2265646f63706f222c22444e455f454e414c5f48434e415242223a226369
      ∷ 0x3a22687461705f656372756f73222c373a2264695f656d69746e7572222c3234
      ∷ 0x30302d65726f632d6c656c6c617261702d68636e6172622f6572757478696622
      ∷ 0x30223a2264697575222c6c6c756e3a22746f6c735f6574617473222c22372f31
      ∷ 0x3030303030303030302d313030382d303030342d303030302d30303030303030
      ∷ 0x425f454e414c5f48434e415242223a2263696e6f6d656e6d227b2c7d22373030
      ∷ 0x3a2264695f656d69746e7572222c3134323a2265646f63706f222c224e494745
      ∷ 0x2d68636e6172622f65727574786966223a22687461705f656372756f73222c38
      ∷ 0x746f6c735f6574617473222c22382f3130302d65726f632d6c656c6c61726170
      ∷ 0x3030342d303030302d3030303030303030223a2264697575222c6c6c756e3a22
      ∷ 0x63696e6f6d656e6d227b2c7d223830303030303030303030302d313030382d30
      ∷ 0x3a2264695f656d69746e7572222c323a2265646f63706f222c224f4958223a22
      ∷ 0x2d68636e6172622f65727574786966223a22687461705f656372756f73222c39
      ∷ 0x746f6c735f6574617473222c22392f3130302d65726f632d6c656c6c61726170
      ∷ 0x3030342d303030302d3030303030303030223a2264697575222c6c6c756e3a22
      ∷ 0x63696e6f6d656e6d227b2c7d223930303030303030303030302d313030382d30
      ∷ 0x3a2264695f656d69746e7572222c313a2265646f63706f222c22434958223a22
      ∷ 0x68636e6172622f65727574786966223a22687461705f656372756f73222c3031
      ∷ 0x6c735f6574617473222c2230312f3130302d65726f632d6c656c6c617261702d
      ∷ 0x342d303030302d3030303030303030223a2264697575222c6c6c756e3a22746f
      ∷ 0x6e6f6d656e6d227b2c7d223031303030303030303030302d313030382d303030
      ∷ 0x323a2265646f63706f222c22444e455f454e414c5f48434e415242223a226369
      ∷ 0x22687461705f656372756f73222c31313a2264695f656d69746e7572222c3234
      ∷ 0x302d65726f632d6c656c6c617261702d68636e6172622f65727574786966223a
      ∷ 0x3a2264697575222c6c6c756e3a22746f6c735f6574617473222c2231312f3130
      ∷ 0x303030303030302d313030382d303030342d303030302d303030303030303022
      ∷ 0x22444e455f48434e415242223a2263696e6f6d656e6d227b2c7d223131303030
      ∷ 0x73222c32313a2264695f656d69746e7572222c3334323a2265646f63706f222c
      ∷ 0x617261702d68636e6172622f65727574786966223a22687461705f656372756f
      ∷ 0x6e3a22746f6c735f6574617473222c2232312f3130302d65726f632d6c656c6c
      ∷ 0x382d303030342d303030302d3030303030303030223a2264697575222c6c6c75
      ∷ 0x223a2263696e6f6d656e6d227b2c7d223231303030303030303030302d313030
      ∷ 0x2c33313a2264695f656d69746e7572222c313a2265646f63706f222c22434958
      ∷ 0x61702d68636e6172622f65727574786966223a22687461705f656372756f7322
      ∷ 0x22746f6c735f6574617473222c2233312f3130302d65726f632d6c656c6c6172
      ∷ 0x303030342d303030302d3030303030303030223a2264697575222c6c6c756e3a
      ∷ 0x2263696e6f6d656e6d227b2c7d223331303030303030303030302d313030382d
      ∷ 0x313a2264695f656d69746e7572222c333a2265646f63706f222c2245544f223a
      ∷ 0x2d68636e6172622f65727574786966223a22687461705f656372756f73222c34
      ∷ 0x6f6c735f6574617473222c2234312f3130302d65726f632d6c656c6c61726170
      ∷ 0x30342d303030302d3030303030303030223a2264697575222c6c6c756e3a2274
      ∷ 0x656e6974756f72222c5d7d223431303030303030303030302d313030382d3030
      ∷ 0x7575222c2265727574786966223a22656d616e222c303a226469227b5b3a2273
      ∷ 0x222c35313a22746e756f63227b5b3a2273676e7572222c5d7d2272223a226469
      ∷ 0x222c303a227472617473222c303a2264695f656e6974756f72222c303a226469
      ∷ 0x223a22656d616e227b5b3a2273676174222c5d7d22676e7572223a2264697575
      ∷ 0x4c4f4f42223a2265707974222c303a2264695f656d69746e7572222c22657270
      ∷ 0x3030382d303030342d303030302d3030303030303030223a2264697575222c22
      ∷ 0x7572222c2261223a22656d616e227b2c7d223030303030303030303030302d30
      ∷ 0x2264697575222c224c4f4f42223a2265707974222c313a2264695f656d69746e
      ∷ 0x3030303030302d303030382d303030342d303030302d3030303030303030223a
      ∷ 0x64695f656d69746e7572222c2262223a22656d616e227b2c7d22313030303030
      ∷ 0x303030303030223a2264697575222c224c4f4f42223a2265707974222c323a22
      ∷ 0x7d223230303030303030303030302d303030382d303030342d303030302d3030
      ∷ 0x222c333a2264695f656d69746e7572222c2274736f70223a22656d616e227b2c
      ∷ 0x30302d3030303030303030223a2264697575222c224c4f4f42223a2265707974
      ∷ 0x616e227b2c7d223330303030303030303030302d303030382d303030342d3030
      ∷ 0x3a2265707974222c343a2264695f656d69746e7572222c2274756f223a22656d
      ∷ 0x3030342d303030302d3030303030303030223a2264697575222c224c4f4f4222
      ∷ 0x2c2262222c2261225b7d5d7d223430303030303030303030302d303030382d30
      ∷ 0x746174735f68636e617262227b5d22657270222c2274736f70222c2274756f22
      ∷ 0x616d6d6f63222c30323a22676e696b636172745f65676e616863222c303a2265
      ∷ 0x726f66222c303a22737265746e756f63222c34363a22676e69676174735f646e
      ∷ 0x2c353a226567616d695f7475706e69222c30313a227379616c7265766f5f6563
      ∷ 0x6d695f74757074756f222c303a2265746174735f6e6f697463757274736e6922
      ∷ 0x3336313a2273657479625f616e6572615f656d69746e7572222c353a22656761
      ∷ 0x34363a22646165687265766f5f6572757463757274735f656d69746e7572222c
      ∷ 0x000000057d303a227372656d6974222c353a22736761745f72616c616373222c
      ∷ 0x0000000000000000000000010000000000000000000000000000000100000001
      ∷ 0x0000000100000000000000000000000000000001000000010000000000000000
      ∷ 0x0000000000000000000000000000000100000000000000000000000000000001 ∷ [])
    ++ row 20 0x0000000f00000000000000000000000100000000

abbrev assertions_3_0 : List Assertion
assertions_3_0 =
    assertion 0 0 (boolean 1) ∷ assertion 1 0 (boolean 0) ∷ assertion 4 0 (boolean 0) ∷ []

abbrev assertions_3_1 : List Assertion
assertions_3_1 =
    assertion 1 0 (boolean 0)
    ∷ assertion 2 0 (boolean 1)
    ∷ assertion 3 0 (boolean 1)
    ∷ assertion 4 0 (boolean 1)
    ∷ []

abbrev assertions_3_2 : List Assertion
assertions_3_2 =
    assertion 0 0 (boolean 0) ∷ assertion 2 0 (boolean 1) ∷ assertion 4 0 (boolean 1) ∷ []

abbrev assertions_3_3 : List Assertion
assertions_3_3 = assertion 0 0 (boolean 0) ∷ assertion 4 0 (boolean 0) ∷ []

abbrev assertions_3_4 : List Assertion
assertions_3_4 = assertion 4 0 (boolean 0) ∷ assertion 2 0 (boolean 1) ∷ []

abbrev assertions_3_5 : List Assertion
assertions_3_5 = assertion 4 0 (boolean 0) ∷ assertion 2 0 (boolean 1) ∷ []

abbrev steps_3 : List FixtureStep
steps_3 =
    step 5 0 0 (boolean 0) 0 (pos 1) 0 (negsuc 0) 0 (negsuc 0) assertions_3_0 [] [] [] 0 []
    ∷ step 3 1000 0 (boolean 0) 0 (negsuc 0) 1 (negsuc 0) 0 (negsuc 0) assertions_3_1 [] [] [] 0 []
    ∷ step 4 2000 0 (boolean 0) 0 (negsuc 0) 18446744073709551615 (negsuc 0) 0 (negsuc 0)
        assertions_3_2 [] [] [] 0 []
    ∷ step 3 3000 0 (boolean 0) 0 (negsuc 0) 2 (negsuc 0) 0 (negsuc 0) assertions_3_3 [] [] [] 0 []
    ∷ step 2 4000 0 (boolean 0) 0 (negsuc 0) 18446744073709551615 (negsuc 0) 0 (negsuc 0)
        assertions_3_4 [] [] [] 0 []
    ∷ step 6 5000 0 (boolean 0) 0 (pos 0) 18446744073709551615 (negsuc 0) 0 (negsuc 0)
        assertions_3_5 [] [] [] 0 []
    ∷ []

abbrev branch_parallel_core_001 : Fixture
branch_parallel_core_001 = record {
  id = "branch-parallel-core-001";
  instruction = "BRANCH";
  image = image_3;
  steps = steps_3;
}

-- The fixture passes, whatever the operations on REAL do.
branch_parallel_core_001-passes : (fl : Floats) → passes fl branch_parallel_core_001 ≡ true
unfolding passes
branch_parallel_core_001-passes fl = refl
