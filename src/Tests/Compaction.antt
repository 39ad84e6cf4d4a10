-- ===== src/Tests/Compaction.antt =====
-- Compaction of a page.
use pg_tde.Base.{
  ℕ, ◌+◌, ◌<◌, ◌≤◌, ◌≡◌, refl, inl, inr, some, List, [], ◌∷◌, arith, bit_xor, true, false,
}
use pg_tde.Aes.Keystream.{keystream}
use pg_tde.Crypt.{State}
use pg_tde.Tuple.{offset_in_file}
use pg_tde.Prune.{Item, unused, stored, compactify_tuples, PageServer, run_plan}
use pg_tde.Prune.Recrypts.{Recrypted, recrypts_of, compactify_tuples-Recrypted}
use pg_tde.Prune.Repair.{Repaired, repair_fragmentation}
use pg_tde.Prune.Repair.Room.{stored_size, repair_fragmentation-room}
use pg_tde.Prune.Alone.{compactify_alone-keeps_data}
use pg_tde.Tests.Encryption.{plain_platform, plain_platform-IsEcb, some_key, some_state}

-- The first tuple is in place; the second, of 40 bytes, and the third, of 60, have to move.
abbrev first_item : Item
first_item = record { offsetindex = 0; itemoff = 8128; len = 64; alignedlen = 64 }

abbrev other_items : List Item
other_items =
    record { offsetindex = 1; itemoff = 8000; len = 40; alignedlen = 40 }
    ∷ (record { offsetindex = 3; itemoff = 7000; len = 60; alignedlen = 64 } ∷ [])

compactify_tuples-Recrypted_example :
    Recrypted 8192
      (first_item ∷ other_items)
      (compactify_tuples 8192 7000 4 first_item other_items true)
compactify_tuples-Recrypted_example =
    compactify_tuples-Recrypted 8192 7000 4 first_item other_items true refl

-- The tuple of 40 bytes is re-encrypted as one of 60, the length of the next.
recrypts_too_much :
    recrypts_of (compactify_tuples 8192 7000 4 first_item other_items true).steps
    ≡ (8000, 8088, 60) ∷ ((7000, 8024, 60) ∷ [])
unfolding recrypts_of compactify_tuples pg_tde.Prune.skip_in_place pg_tde.Prune.move_items
recrypts_too_much = refl

-- A page with a tuple of 40 bytes and an unused line pointer.
abbrev lone_item : Item
lone_item = record { offsetindex = 0; itemoff = 8000; len = 40; alignedlen = 40 }

abbrev repaired_page : Repaired
repaired_page = record {
  pd_lower = 28;
  pd_upper = 8152;
  has_free_lines = false;
  compaction = some (compactify_tuples 8192 7000 2 lone_item [] true);
}

repair_fragmentation-room_example :
    (8152 + stored_size (stored 8000 40 ∷ (unused ∷ [])) ≡ 8192) × (28 ≤ 8152)
unfolding repair_fragmentation pg_tde.Prune.Repair.collect pg_tde.Prune.Repair.compact
    compactify_tuples pg_tde.Prune.skip_in_place pg_tde.Prune.move_items
repair_fragmentation-room_example =
    repair_fragmentation-room 32 7000 8192 (stored 8000 40 ∷ (unused ∷ [])) repaired_page refl

abbrev some_page_server : PageServer
some_page_server = record { set_lp_off = λ page i off m. m; set_pd_upper = λ page off m. m }

compactify_alone-keeps_data_example :
    (s' : State) × (run_plan plain_platform some_page_server 1 8192 8192 some_key 20000
        (compactify_tuples 8192 8000 1 lone_item [] true)
        some_state
      ≡ some s')
    × ((i : ℕ) → i < 24 → s'.mem (8192 + 8152 + i) ≡ some_state.mem (8192 + 8000 + i))
    × ((j : ℕ)
        → j < 16
        → bit_xor
            (s'.mem (8192 + 8152 + (24 + j)))
            (keystream plain_platform some_key (offset_in_file 1 8152 + j))
          ≡ bit_xor
              (some_state.mem (8192 + 8000 + 24 + j))
              (keystream plain_platform some_key (offset_in_file 1 8000 + j)))
compactify_alone-keeps_data_example =
    compactify_alone-keeps_data plain_platform plain_platform-IsEcb some_page_server 1 8192 some_key
      20000 8192 lone_item (omega arith) (omega arith) (omega arith) (omega arith)
      (λ a i off m h. (refl, refl)) (inr (omega arith)) 8000 1 some_state (inl refl)
