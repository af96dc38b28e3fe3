-- ===== src/Conformance/Cases/Ton.antt =====
-- The fixture ton-core-001 of runtime/generated/rsm_conformance_fixtures.c.
use rsmicro.Prelude.{List, [], ◌∷◌, ◌++◌, ◌≡◌, refl, true}
use rsmicro.Prelude.Int.{pos, negsuc}
use rsmicro.Core.Words.{Bytes}
use rsmicro.Core.Types.{Floats, boolean, dint}
use rsmicro.Conformance.Fixture.{
  Assertion, StateAssertion, PowerAssertion, FixtureStep, Fixture, row, rows, assertion, state,
  rung_power, step,
}
use rsmicro.Conformance.Runner.{passes}

abbrev image_29 : Bytes
image_29 =
    rows (
      0x0000008000400000000000000010000200000001000008cf00480002314d5352
      ∷ 0xefd1b451b5db99f4c3b3d0b668925f0e587b16908f2f7cff8bca0e6401000000
      ∷ 0x000000020000000000000000000001ac000001880000000111b3e5d08a8599a7
      ∷ 0x0000000000000003000003530000000300000000000000000000001f00000334
      ∷ 0x0000035800000005000000000000000000000002000003560000000400000000
      ∷ 0x000000000000000000000026000003620000000600000000000000000000000a
      ∷ 0x0000003c000003c30000000800000000000000000000003b0000038800000007
      ∷ 0x0000000a00000000000000000000001f000003ff000000090000000000000000
      ∷ 0x0000000000000002000004200000000b0000000000000000000000020000041e
      ∷ 0x0000077f0000000d00000000000000000000035d000004220000000c00000000
      ∷ 0x0000000000000000000000ea000007950000000e000000000000000000000016
      ∷ 0x00000010000008bf000000100000000000000000000000400000087f0000000f
      ∷ 0x2c657572743a226c616974696e69222c303a226469227b5b0000000000000000
      ∷ 0x2c65736c61663a22657669746e65746572222c2265746167223a22656d616e22
      ∷ 0x4f4f42223a2265707974222c224c414e5245544e49223a22656761726f747322
      ∷ 0x30382d303030342d303030302d3030303030303030223a2264697575222c224c
      ∷ 0x6974696e69222c313a226469227b2c7d223030303030303030303030302d3030
      ∷ 0x74223a22656d616e222c7d30313a22455250222c303a22434341227b3a226c61
      ∷ 0x656761726f7473222c65736c61663a22657669746e65746572222c2272656d69
      ∷ 0x697575222c2252454d4954223a2265707974222c224c414e5245544e49223a22
      ∷ 0x303030302d303030382d303030342d303030302d3030303030303030223a2264
      ∷ 0x6c61663a226c616974696e69222c323a226469227b2c7d223130303030303030
      ∷ 0x736c61663a22657669746e65746572222c2274756f223a22656d616e222c6573
      ∷ 0x42223a2265707974222c224c414e5245544e49223a22656761726f7473222c65
      ∷ 0x2d303030342d303030302d3030303030303030223a2264697575222c224c4f4f
      ∷ 0x22434341227b2c657572745b5d7d223230303030303030303030302d30303038
      ∷ 0x303a226469227b5b5d5b5d315b5d65736c61662c7d30313a22455250222c303a
      ∷ 0x697575222c2265727574786966223a22656d616e222c303a226469227b5b5d7d
      ∷ 0x74756f72222c303a226469222c333a22746e756f63227b5b5d7d2272223a2264
      ∷ 0x676e7572223a2264697575222c303a227472617473222c303a2264695f656e69
      ∷ 0x0000000001000001100000000000000101ffffffff00000000000001015d7d22
      ∷ 0x5b0000000200000101ffffffff00000002000001030000000100000401000000
      ∷ 0x5d5b5d7d303a22746f6c73222c313a2264695f6e6f697463757274736e69227b
      ∷ 0x223a2263696e6f6d656e6d227b5b3a22736e6f697463757274736e69227b5d5b
      ∷ 0x222c303a2264695f656d69746e7572222c313a2265646f63706f222c22434958
      ∷ 0x302d65726f632d6e6f742f65727574786966223a22687461705f656372756f73
      ∷ 0x223a2264697575222c6c6c756e3a22746f6c735f6574617473222c22302f3130
      ∷ 0x30303030303030302d313030382d303030342d303030302d3030303030303030
      ∷ 0x65646f63706f222c224e4f54223a2263696e6f6d656e6d227b2c7d2230303030
      ∷ 0x687461705f656372756f73222c313a2264695f656d69746e7572222c36313a22
      ∷ 0x74617473222c22312f3130302d65726f632d6e6f742f65727574786966223a22
      ∷ 0x2d303030302d3030303030303030223a2264697575222c303a22746f6c735f65
      ∷ 0x6f6d656e6d227b2c7d223130303030303030303030302d313030382d30303034
      ∷ 0x695f656d69746e7572222c333a2265646f63706f222c2245544f223a2263696e
      ∷ 0x2d6e6f742f65727574786966223a22687461705f656372756f73222c323a2264
      ∷ 0x75222c6c6c756e3a22746f6c735f6574617473222c22322f3130302d65726f63
      ∷ 0x30302d313030382d303030342d303030302d3030303030303030223a22646975
      ∷ 0x3a226469227b5b3a2273656e6974756f72222c5d7d2232303030303030303030
      ∷ 0x2c5d7d2272223a2264697575222c2265727574786966223a22656d616e222c30
      ∷ 0x74756f72222c303a226469222c333a22746e756f63227b5b3a2273676e757222
      ∷ 0x676e7572223a2264697575222c303a227472617473222c303a2264695f656e69
      ∷ 0x746e7572222c2265746167223a22656d616e227b5b3a2273676174222c5d7d22
      ∷ 0x223a2264697575222c224c4f4f42223a2265707974222c303a2264695f656d69
      ∷ 0x30303030303030302d303030382d303030342d303030302d3030303030303030
      ∷ 0x5f656d69746e7572222c2272656d6974223a22656d616e227b2c7d2230303030
      ∷ 0x303030223a2264697575222c2252454d4954223a2265707974222c313a226469
      ∷ 0x30303030303030303030302d303030382d303030342d303030302d3030303030
      ∷ 0x323a2264695f656d69746e7572222c2274756f223a22656d616e227b2c7d2231
      ∷ 0x2d3030303030303030223a2264697575222c224c4f4f42223a2265707974222c
      ∷ 0x5b7d5d7d223230303030303030303030302d303030382d303030342d30303030
      ∷ 0x74735f68636e617262227b5d2272656d6974222c2274756f222c226574616722
      ∷ 0x6d6f63222c32313a22676e696b636172745f65676e616863222c303a22657461
      ∷ 0x66222c303a22737265746e756f63222c34363a22676e69676174735f646e616d
      ∷ 0x323a226567616d695f7475706e69222c363a227379616c7265766f5f6563726f
      ∷ 0x5f74757074756f222c36313a2265746174735f6e6f697463757274736e69222c
      ∷ 0x313a2273657479625f616e6572615f656d69746e7572222c323a226567616d69
      ∷ 0x3a22646165687265766f5f6572757463757274735f656d69746e7572222c3038
      ∷ 0x037d36313a227372656d6974222c323a22736761745f72616c616373222c3436
      ∷ 0x000000000a000000040000000000000000000000000000000100000001000000
      ∷ 0x0100000000000000000000000000000000000000010000000000000000000000 ∷ [])
    ++ row 15 0x000000030000000000000000000000

abbrev assertions_29_0 : List Assertion
assertions_29_0 =
    assertion 1 1 (dint (pos 10))
    ∷ assertion 1 2 (dint (pos 0))
    ∷ assertion 1 3 (boolean 0)
    ∷ assertion 2 0 (boolean 0)
    ∷ []

abbrev assertions_29_1 : List Assertion
assertions_29_1 =
    assertion 1 2 (dint (pos 0))
    ∷ assertion 1 3 (boolean 1)
    ∷ assertion 1 4 (boolean 1)
    ∷ assertion 1 5 (boolean 0)
    ∷ assertion 2 0 (boolean 1)
    ∷ []

abbrev instruction_states_29_1 : List StateAssertion
instruction_states_29_1 = state 0 1 1 1000 ∷ []

abbrev rung_powers_29_1 : List PowerAssertion
rung_powers_29_1 = rung_power 0 1 ∷ []

abbrev assertions_29_2 : List Assertion
assertions_29_2 = assertion 1 2 (dint (pos 6)) ∷ assertion 1 4 (boolean 1) ∷ []

abbrev assertions_29_3 : List Assertion
assertions_29_3 =
    assertion 1 2 (dint (pos 14)) ∷ assertion 1 5 (boolean 1) ∷ assertion 1 4 (boolean 0) ∷ []

abbrev assertions_29_4 : List Assertion
assertions_29_4 = assertion 1 2 (dint (pos 39)) ∷ assertion 1 5 (boolean 1) ∷ []

abbrev assertions_29_5 : List Assertion
assertions_29_5 = assertion 0 0 (boolean 0) ∷ []

abbrev assertions_29_6 : List Assertion
assertions_29_6 =
    assertion 1 2 (dint (pos 0))
    ∷ assertion 1 3 (boolean 0)
    ∷ assertion 1 4 (boolean 0)
    ∷ assertion 1 5 (boolean 0)
    ∷ assertion 2 0 (boolean 0)
    ∷ []

abbrev assertions_29_7 : List Assertion
assertions_29_7 = assertion 1 2 (dint (pos 0)) ∷ assertion 2 0 (boolean 0) ∷ []

abbrev assertions_29_8 : List Assertion
assertions_29_8 = assertion 1 2 (dint (pos 0)) ∷ []

abbrev assertions_29_9 : List Assertion
assertions_29_9 = assertion 1 2 (dint (pos 0)) ∷ []

abbrev steps_29 : List FixtureStep
steps_29 =
    step 5 0 0 (boolean 0) 0 (pos 1) 18446744073709551615 (negsuc 0) 0 (negsuc 0) assertions_29_0 []
      [] [] 0 []
    ∷ step 3 1000 0 (boolean 0) 0 (negsuc 0) 1 (negsuc 0) 0 (negsuc 0) assertions_29_1 []
        instruction_states_29_1 rung_powers_29_1 0 []
    ∷ step 3 7000 0 (boolean 0) 0 (negsuc 0) 18446744073709551615 (negsuc 0) 0 (negsuc 0)
        assertions_29_2 [] [] [] 0 []
    ∷ step 3 15000 0 (boolean 0) 0 (negsuc 0) 18446744073709551615 (negsuc 0) 0 (negsuc 0)
        assertions_29_3 [] [] [] 0 []
    ∷ step 3 40000 0 (boolean 0) 0 (negsuc 0) 18446744073709551615 (negsuc 0) 0 (negsuc 0)
        assertions_29_4 [] [] [] 0 []
    ∷ step 4 41000 0 (boolean 0) 0 (negsuc 0) 18446744073709551615 (negsuc 0) 0 (negsuc 0)
        assertions_29_5 [] [] [] 0 []
    ∷ step 3 42000 0 (boolean 0) 0 (negsuc 0) 18446744073709551615 (negsuc 0) 0 (negsuc 0)
        assertions_29_6 [] [] [] 0 []
    ∷ step 6 43000 0 (boolean 0) 0 (pos 0) 18446744073709551615 (negsuc 0) 0 (negsuc 0)
        assertions_29_7 [] [] [] 0 []
    ∷ step 5 100000 0 (boolean 0) 0 (pos 1) 18446744073709551615 (negsuc 0) 0 (negsuc 0)
        assertions_29_8 [] [] [] 0 []
    ∷ step 3 105000 0 (boolean 0) 0 (negsuc 0) 18446744073709551615 (negsuc 0) 0 (negsuc 0)
        assertions_29_9 [] [] [] 0 []
    ∷ []

abbrev ton_core_001 : Fixture
ton_core_001 = record {
  id = "ton-core-001";
  instruction = "TON";
  image = image_29;
  steps = steps_29;
}

-- The fixture passes, whatever the operations on REAL do.
ton_core_001-passes : (fl : Floats) → passes fl ton_core_001 ≡ true
unfolding passes
ton_core_001-passes fl = refl
