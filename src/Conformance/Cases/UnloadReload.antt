-- ===== src/Conformance/Cases/UnloadReload.antt =====
-- The fixture unload-reload-core-001 of runtime/generated/rsm_conformance_fixtures.c.
use rsmicro.Prelude.{List, [], ◌∷◌, ◌++◌, ◌≡◌, refl, true}
use rsmicro.Prelude.Int.{pos, negsuc}
use rsmicro.Core.Words.{Bytes}
use rsmicro.Core.Types.{Floats, boolean, dint}
use rsmicro.Conformance.Fixture.{Assertion, FixtureStep, Fixture, row, rows, assertion, step}
use rsmicro.Conformance.Runner.{passes}

abbrev image_32 : Bytes
image_32 =
    rows (
      0x00000080004000000000000000100002000000010000064500480002314d5352
      ∷ 0xadf04a4675e6a44775170d954b3d7933b1f0c3f85b54751e56fe1a5201000000
      ∷ 0x00000002000000000000000000000112000001880000000177044778f65d1d2d
      ∷ 0x0000000000000002000002a3000000030000000000000000000000090000029a
      ∷ 0x000002a700000005000000000000000000000002000002a50000000400000000
      ∷ 0x000000000000000000000026000002b10000000600000000000000000000000a
      ∷ 0x00000014000003120000000800000000000000000000003b000002d700000007
      ∷ 0x0000000a00000000000000000000000200000326000000090000000000000000
      ∷ 0x00000000000000020000032a0000000b00000000000000000000000200000328
      ∷ 0x000005120000000d0000000000000000000001e60000032c0000000c00000000
      ∷ 0x0000000000000000000000e7000005220000000e000000000000000000000010
      ∷ 0x00000010000006350000001000000000000000000000002c000006090000000f
      ∷ 0x65736c61663a226c616974696e69222c303a226469227b5b0000000000000000
      ∷ 0x65736c61663a22657669746e65746572222c2265746167223a22656d616e222c
      ∷ 0x4f42223a2265707974222c224c414e5245544e49223a22656761726f7473222c
      ∷ 0x382d303030342d303030302d3030303030303030223a2264697575222c224c4f
      ∷ 0x74696e69222c313a226469227b2c7d223030303030303030303030302d303030
      ∷ 0x657669746e65746572222c2265756c6176223a22656d616e222c373a226c6169
      ∷ 0x7974222c224c414e5245544e49223a22656761726f7473222c65736c61663a22
      ∷ 0x303030302d3030303030303030223a2264697575222c22544e4944223a226570
      ∷ 0x65736c61665b5d7d223130303030303030303030302d303030382d303030342d
      ∷ 0x22656d616e222c303a226469227b5b5d7d303a226469227b5b5d5b5d5b5d372c
      ∷ 0x22746e756f63227b5b5d7d2272223a2264697575222c2265727574786966223a
      ∷ 0x227472617473222c303a2264695f656e6974756f72222c303a226469222c313a
      ∷ 0x0101ffffffff00000000000001015d7d22676e7572223a2264697575222c303a
      ∷ 0x6d227b5b3a22736e6f697463757274736e69227b5d5b5d5b5d5b000000000000
      ∷ 0x69746e7572222c313a2265646f63706f222c22434958223a2263696e6f6d656e
      ∷ 0x2f65727574786966223a22687461705f656372756f73222c303a2264695f656d
      ∷ 0x6574617473222c22302f3130302d65726f632d64616f6c65722d64616f6c6e75
      ∷ 0x3030302d3030303030303030223a2264697575222c6c6c756e3a22746f6c735f
      ∷ 0x756f72222c5d7d223030303030303030303030302d313030382d303030342d30
      ∷ 0x2265727574786966223a22656d616e222c303a226469227b5b3a2273656e6974
      ∷ 0x3a22746e756f63227b5b3a2273676e7572222c5d7d2272223a2264697575222c
      ∷ 0x3a227472617473222c303a2264695f656e6974756f72222c303a226469222c31
      ∷ 0x656d616e227b5b3a2273676174222c5d7d22676e7572223a2264697575222c30
      ∷ 0x223a2265707974222c303a2264695f656d69746e7572222c2265746167223a22
      ∷ 0x303030342d303030302d3030303030303030223a2264697575222c224c4f4f42
      ∷ 0x6176223a22656d616e227b2c7d223030303030303030303030302d303030382d
      ∷ 0x544e4944223a2265707974222c313a2264695f656d69746e7572222c2265756c
      ∷ 0x3030382d303030342d303030302d3030303030303030223a2264697575222c22
      ∷ 0x65756c6176222c2265746167225b7d5d7d223130303030303030303030302d30
      ∷ 0x636172745f65676e616863222c303a2265746174735f68636e617262227b5d22
      ∷ 0x6f63222c34363a22676e69676174735f646e616d6d6f63222c383a22676e696b
      ∷ 0x6e69222c343a227379616c7265766f5f6563726f66222c303a22737265746e75
      ∷ 0x2265746174735f6e6f697463757274736e69222c313a226567616d695f747570
      ∷ 0x6572615f656d69746e7572222c313a226567616d695f74757074756f222c303a
      ∷ 0x6572757463757274735f656d69746e7572222c3534313a2273657479625f616e
      ∷ 0x74222c353a22736761745f72616c616373222c34363a22646165687265766f5f
      ∷ 0x00000000000000000000000000000000000001000000027d303a227372656d69
      ∷ 0x0000000000000000000001000000000000000000000000000000070000000200 ∷ [])
    ++ row 5 0x0000000100

abbrev assertions_32_1 : List Assertion
assertions_32_1 = assertion 1 0 (dint (pos 7)) ∷ []

abbrev assertions_32_4 : List Assertion
assertions_32_4 = assertion 1 0 (dint (pos 7)) ∷ []

abbrev assertions_32_9 : List Assertion
assertions_32_9 = assertion 1 0 (dint (pos 7)) ∷ []

abbrev steps_32 : List FixtureStep
steps_32 =
    step 5 0 0 (boolean 0) 0 (pos 1) 0 (negsuc 0) 0 (negsuc 0) [] [] [] [] 0 []
    ∷ step 11 1 0 (boolean 0) 2 (pos 1) 18446744073709551615 (negsuc 0) 0 (negsuc 0) assertions_32_1
        [] [] [] 0 []
    ∷ step 6 2 0 (boolean 0) 0 (pos 0) 18446744073709551615 (negsuc 0) 0 (negsuc 0) [] [] [] [] 0 []
    ∷ step 7 3 0 (boolean 0) 0 (pos 2) 0 (negsuc 0) 0 (negsuc 0) [] [] [] [] 0 []
    ∷ step 11 4 0 (boolean 0) 2 (pos 2) 18446744073709551615 (negsuc 0) 0 (negsuc 0) assertions_32_4
        [] [] [] 0 []
    ∷ step 6 5 0 (boolean 0) 0 (pos 0) 18446744073709551615 (negsuc 0) 0 (negsuc 0) [] [] [] [] 0 []
    ∷ step 11 6 0 (boolean 0) 0 (pos 0) 18446744073709551615 (negsuc 0) 0 (negsuc 0) [] [] [] [] 0
        []
    ∷ step 13 7 0 (boolean 0) 2 (pos 0) 18446744073709551615 (negsuc 0) 0 (negsuc 0) [] [] [] [] 0
        []
    ∷ step 3 8 0 (boolean 0) 2 (pos 0) 18446744073709551615 (negsuc 0) 0 (negsuc 0) [] [] [] [] 0 []
    ∷ step 12 9 0 (boolean 0) 0 (pos 0) 0 (negsuc 0) 0 (negsuc 0) assertions_32_9 [] [] [] 0 []
    ∷ []

abbrev unload_reload_core_001 : Fixture
unload_reload_core_001 = record {
  id = "unload-reload-core-001";
  instruction = "LIFECYCLE";
  image = image_32;
  steps = steps_32;
}

-- The fixture passes, whatever the operations on REAL do.
unload_reload_core_001-passes : (fl : Floats) → passes fl unload_reload_core_001 ≡ true
unfolding passes
unload_reload_core_001-passes fl = refl
