-- ===== src/Conformance/Cases/Ote.antt =====
-- The fixture ote-core-001 of runtime/generated/rsm_conformance_fixtures.c.
use rsmicro.Prelude.{List, [], ◌∷◌, ◌++◌, ◌≡◌, refl, true}
use rsmicro.Prelude.Int.{pos, negsuc}
use rsmicro.Core.Words.{Bytes}
use rsmicro.Core.Types.{Floats, boolean}
use rsmicro.Conformance.Fixture.{
  Assertion, ForceAssertion, PowerAssertion, WriteAssertion, FixtureStep, Fixture, row, rows,
  assertion, force, rung_power, write, step,
}
use rsmicro.Conformance.Runner.{passes}

abbrev image_23 : Bytes
image_23 =
    rows (
      0x00000080004000000000000000100002000000010000083300480002314d5352
      ∷ 0x683ef634b4f2d788038e29a6ba2321aeae5ff3b20dde16307d0e8bb601000000
      ∷ 0x0000000200000000000000000000011300000188000000013917a91a64fedd6b
      ∷ 0x0000000000000002000002a70000000300000000000000000000000c0000029b
      ∷ 0x000002ab00000005000000000000000000000002000002a90000000400000000
      ∷ 0x000000000000000000000026000002b50000000600000000000000000000000a
      ∷ 0x00000050000003160000000800000000000000000000003b000002db00000007
      ∷ 0x0000000a00000000000000000000000200000366000000090000000000000000
      ∷ 0x00000000000000020000036a0000000b00000000000000000000000200000368
      ∷ 0x000007020000000d0000000000000000000003960000036c0000000c00000000
      ∷ 0x0000000000000000000000e7000007100000000e00000000000000000000000e
      ∷ 0x00000010000008230000001000000000000000000000002c000007f70000000f
      ∷ 0x2c657572743a226c616974696e69222c303a226469227b5b0000000000000000
      ∷ 0x2c65736c61663a22657669746e65746572222c2265746167223a22656d616e22
      ∷ 0x4f4f42223a2265707974222c224c414e5245544e49223a22656761726f747322
      ∷ 0x30382d303030342d303030302d3030303030303030223a2264697575222c224c
      ∷ 0x6974696e69222c313a226469227b2c7d223030303030303030303030302d3030
      ∷ 0x7669746e65746572222c2274756f223a22656d616e222c65736c61663a226c61
      ∷ 0x74222c224c414e5245544e49223a22656761726f7473222c65736c61663a2265
      ∷ 0x3030302d3030303030303030223a2264697575222c224c4f4f42223a22657079
      ∷ 0x657572745b5d7d223130303030303030303030302d303030382d303030342d30
      ∷ 0x6e222c303a226469227b5b5d7d303a226469227b5b5d5b5d5b5d65736c61662c
      ∷ 0x6f63227b5b5d7d2272223a2264697575222c2265727574786966223a22656d61
      ∷ 0x7473222c303a2264695f656e6974756f72222c303a226469222c343a22746e75
      ∷ 0xffff00000000000001015d7d22676e7572223a2264697575222c303a22747261
      ∷ 0x01020000000100000101ffffffff00000001000001030000000000000101ffff
      ∷ 0x0101ffffffff00000003000001030000000000000101ffffffff000000020000
      ∷ 0x6d227b5b3a22736e6f697463757274736e69227b5d5b5d5b5d5b000000010000
      ∷ 0x69746e7572222c313a2265646f63706f222c22434958223a2263696e6f6d656e
      ∷ 0x2f65727574786966223a22687461705f656372756f73222c303a2264695f656d
      ∷ 0x6c756e3a22746f6c735f6574617473222c22302f3130302d65726f632d65746f
      ∷ 0x3030382d303030342d303030302d3030303030303030223a2264697575222c6c
      ∷ 0x544f223a2263696e6f6d656e6d227b2c7d223030303030303030303030302d31
      ∷ 0x6f73222c313a2264695f656d69746e7572222c333a2265646f63706f222c2245
      ∷ 0x3130302d65726f632d65746f2f65727574786966223a22687461705f65637275
      ∷ 0x3030223a2264697575222c6c6c756e3a22746f6c735f6574617473222c22312f
      ∷ 0x303030303030303030302d313030382d303030342d303030302d303030303030
      ∷ 0x3a2265646f63706f222c224f4958223a2263696e6f6d656e6d227b2c7d223130
      ∷ 0x223a22687461705f656372756f73222c323a2264695f656d69746e7572222c32
      ∷ 0x735f6574617473222c22322f3130302d65726f632d65746f2f65727574786966
      ∷ 0x2d303030302d3030303030303030223a2264697575222c6c6c756e3a22746f6c
      ∷ 0x6f6d656e6d227b2c7d223230303030303030303030302d313030382d30303034
      ∷ 0x695f656d69746e7572222c333a2265646f63706f222c2245544f223a2263696e
      ∷ 0x2d65746f2f65727574786966223a22687461705f656372756f73222c333a2264
      ∷ 0x75222c6c6c756e3a22746f6c735f6574617473222c22332f3130302d65726f63
      ∷ 0x30302d313030382d303030342d303030302d3030303030303030223a22646975
      ∷ 0x3a226469227b5b3a2273656e6974756f72222c5d7d2233303030303030303030
      ∷ 0x2c5d7d2272223a2264697575222c2265727574786966223a22656d616e222c30
      ∷ 0x74756f72222c303a226469222c343a22746e756f63227b5b3a2273676e757222
      ∷ 0x676e7572223a2264697575222c303a227472617473222c303a2264695f656e69
      ∷ 0x746e7572222c2265746167223a22656d616e227b5b3a2273676174222c5d7d22
      ∷ 0x223a2264697575222c224c4f4f42223a2265707974222c303a2264695f656d69
      ∷ 0x30303030303030302d303030382d303030342d303030302d3030303030303030
      ∷ 0x64695f656d69746e7572222c2274756f223a22656d616e227b2c7d2230303030
      ∷ 0x303030303030223a2264697575222c224c4f4f42223a2265707974222c313a22
      ∷ 0x7d223130303030303030303030302d303030382d303030342d303030302d3030
      ∷ 0x3a2265746174735f68636e617262227b5d2274756f222c2265746167225b7d5d
      ∷ 0x735f646e616d6d6f63222c383a22676e696b636172745f65676e616863222c30
      ∷ 0x6f5f6563726f66222c303a22737265746e756f63222c34363a22676e69676174
      ∷ 0x74736e69222c323a226567616d695f7475706e69222c343a227379616c726576
      ∷ 0x3a226567616d695f74757074756f222c303a2265746174735f6e6f6974637572
      ∷ 0x6e7572222c3234313a2273657479625f616e6572615f656d69746e7572222c32
      ∷ 0x616373222c34363a22646165687265766f5f6572757463757274735f656d6974
      ∷ 0x0100000001000000027d303a227372656d6974222c323a22736761745f72616c
      ∷ 0x0000000000000000000000000000000001000000000000000000000000000000 ∷ [])
    ++ row 19 0x00000004000000000000000000000001000000

abbrev assertions_23_0 : List Assertion
assertions_23_0 = assertion 1 0 (boolean 0) ∷ []

abbrev assertions_23_1 : List Assertion
assertions_23_1 = assertion 1 0 (boolean 0) ∷ []

abbrev assertions_23_2 : List Assertion
assertions_23_2 = assertion 0 0 (boolean 1) ∷ assertion 1 0 (boolean 0) ∷ []

abbrev forces_23_2 : List ForceAssertion
forces_23_2 = force 1 0 (boolean 0) (boolean 0) ∷ []

abbrev rung_powers_23_2 : List PowerAssertion
rung_powers_23_2 = rung_power 0 0 ∷ []

abbrev writes_23_2 : List WriteAssertion
writes_23_2 = write 1 (boolean 1) ∷ write 1 (boolean 0) ∷ []

abbrev assertions_23_3 : List Assertion
assertions_23_3 = assertion 1 0 (boolean 1) ∷ []

abbrev forces_23_3 : List ForceAssertion
forces_23_3 = force 1 1 (boolean 0) (boolean 1) ∷ []

abbrev assertions_23_4 : List Assertion
assertions_23_4 = assertion 1 0 (boolean 1) ∷ []

abbrev forces_23_4 : List ForceAssertion
forces_23_4 = force 1 1 (boolean 0) (boolean 1) ∷ []

abbrev rung_powers_23_4 : List PowerAssertion
rung_powers_23_4 = rung_power 0 0 ∷ []

abbrev writes_23_4 : List WriteAssertion
writes_23_4 = write 1 (boolean 1) ∷ write 1 (boolean 0) ∷ []

abbrev assertions_23_5 : List Assertion
assertions_23_5 = assertion 1 0 (boolean 0) ∷ []

abbrev assertions_23_6 : List Assertion
assertions_23_6 = assertion 1 0 (boolean 0) ∷ []

abbrev assertions_23_7 : List Assertion
assertions_23_7 = assertion 1 0 (boolean 1) ∷ []

abbrev forces_23_7 : List ForceAssertion
forces_23_7 = force 1 1 (boolean 0) (boolean 1) ∷ []

abbrev assertions_23_8 : List Assertion
assertions_23_8 = assertion 1 0 (boolean 0) ∷ []

abbrev forces_23_8 : List ForceAssertion
forces_23_8 = force 1 0 (boolean 0) (boolean 0) ∷ []

abbrev assertions_23_9 : List Assertion
assertions_23_9 = assertion 1 0 (boolean 0) ∷ []

abbrev steps_23 : List FixtureStep
steps_23 =
    step 1 0 0 (boolean 0) 0 (negsuc 0) 18446744073709551615 (negsuc 0) 0 (negsuc 0) assertions_23_0
      [] [] [] 0 []
    ∷ step 5 1000 0 (boolean 0) 0 (pos 1) 0 (negsuc 0) 0 (negsuc 0) assertions_23_1 [] [] [] 0 []
    ∷ step 3 2000 0 (boolean 0) 0 (negsuc 0) 1 (negsuc 0) 0 (negsuc 0) assertions_23_2 forces_23_2
        [] rung_powers_23_2 1 writes_23_2
    ∷ step 8 3000 1 (boolean 1) 0 (negsuc 0) 18446744073709551615 (negsuc 0) 0 (negsuc 0)
        assertions_23_3 forces_23_3 [] [] 0 []
    ∷ step 3 4000 0 (boolean 0) 0 (negsuc 0) 2 (negsuc 0) 0 (negsuc 0) assertions_23_4 forces_23_4
        [] rung_powers_23_4 1 writes_23_4
    ∷ step 9 5000 1 (boolean 0) 0 (negsuc 0) 18446744073709551615 (negsuc 0) 0 (negsuc 0)
        assertions_23_5 [] [] [] 0 []
    ∷ step 2 6000 0 (boolean 0) 0 (negsuc 0) 18446744073709551615 (negsuc 0) 0 (negsuc 0)
        assertions_23_6 [] [] [] 0 []
    ∷ step 8 7000 1 (boolean 1) 0 (negsuc 0) 18446744073709551615 (negsuc 0) 0 (negsuc 0)
        assertions_23_7 forces_23_7 [] [] 0 []
    ∷ step 10 8000 0 (boolean 0) 0 (negsuc 0) 18446744073709551615 (negsuc 0) 0 (negsuc 0)
        assertions_23_8 forces_23_8 [] [] 0 []
    ∷ step 6 9000 0 (boolean 0) 0 (pos 0) 18446744073709551615 (negsuc 0) 0 (negsuc 0)
        assertions_23_9 [] [] [] 0 []
    ∷ []

abbrev ote_core_001 : Fixture
ote_core_001 = record {
  id = "ote-core-001";
  instruction = "OTE";
  image = image_23;
  steps = steps_23;
}

-- The fixture passes, whatever the operations on REAL do.
ote_core_001-passes : (fl : Floats) → passes fl ote_core_001 ≡ true
unfolding passes
ote_core_001-passes fl = refl
