-- ===== src/Prune/Alone.antt =====
-- A page with one tuple: compaction moves it and re-encrypts it for its new place.
use pg_tde.Base.{
  arith, ℕ, ◌+◌, ◌-◌, ◌^◌, ◌≤◌, ◌<◌, ◌≡◌, refl, ap, ◌∙◌, ◌⊎◌, inl, bit_xor, bit_xor-bit_xor, true,
  ◌&&◌, Option, none, some, if◌then◌else◌, List, [], ◌∷◌, ltb, leb, u32, Ptr, Mem,
}
use pg_tde.Aes.{Platform, IsEcb}
use pg_tde.Aes.Keystream.{Serves, keystream}
use pg_tde.Crypt.{State, pg_tde_move_encrypted_data}
use pg_tde.Crypt.Batches.{InRange}
use pg_tde.Crypt.Move.{IsMoved, pg_tde_move_encrypted_data-IsMoved}
use pg_tde.Tuple.{blcksz, offset_in_file}
use pg_tde.Tuple.Offset.{offset_in_file-lt}
use pg_tde.Prune.{
  Item, recrypt, move, set_line, header_size, item_end, skip_in_place, move_items,
  compactify_tuples, PageServer, copy_bytes, run_step, run_steps, run_plan,
}

-- The steps for a single tuple that is not in place.
alone_plan :
    (pd_special pd_upper max_offset : ℕ) (it : Item)
    → item_end it < pd_special
    → 0 < it.alignedlen
    → compactify_tuples pd_special pd_upper max_offset it [] true ≡ record {
      steps =
          set_line it.offsetindex (pd_special - it.alignedlen)
          ∷ (recrypt it.itemoff (pd_special - it.alignedlen) it.len
              ∷ (move (pd_special - it.alignedlen) it.itemoff (item_end it - it.itemoff) ∷ []));
      upper = pd_special - it.alignedlen;
    }
unfolding compactify_tuples skip_in_place move_items
alone_plan pd_special pd_upper max_offset it gap sized = ground arith

-- Setting the header's fields leaves the page from `low` on alone.
abbrev pub KeepsTuples : PageServer → Ptr → ℕ → Type 0
KeepsTuples sv page low =
    (a : Ptr) (i off : ℕ) (m : Mem)
    → page + low ≤ a
    → (sv.set_lp_off page i off m a ≡ m a) × (sv.set_pd_upper page off m a ≡ m a)

module _ (pf : Platform) (is_ecb : IsEcb pf) (sv : PageServer) (bn : ℕ) (page : Ptr) (key : List ℕ)
    (dec : Ptr) (pd_special : ℕ) (it : Item) (gap : item_end it < pd_special)
    (on_page : pd_special ≤ blcksz) (long : header_size ≤ it.len) (aligned : it.len ≤ it.alignedlen)
    (keeps : KeepsTuples sv page it.itemoff)
    (local : (dec + 1600 ≤ page) ⊎ (page + blcksz ≤ dec)) where
  -- The tuple's new place, and the length of its data.
  abbrev pub new_off : ℕ
  new_off = pd_special - it.alignedlen

  abbrev pub data_len : ℕ
  data_len = it.len - header_size

  abbrev data_at : Ptr
  data_at = page + it.itemoff + header_size

  InRange-place : (off : ℕ) → off ≤ blcksz → InRange (offset_in_file bn off) data_len
  InRange-place off near =
      let low = offset_in_file-lt bn off near in
      record { blocks_fit = omega arith; counts_fit = omega arith }

  recrypted :
      (s : State)
      → Serves s.ctx key
      → (s' : State) × (run_step pf sv bn page page key dec (recrypt it.itemoff new_off it.len) s
          ≡ some s')
        × IsMoved pf is_ecb key
            (offset_in_file bn it.itemoff)
            (offset_in_file bn new_off)
            data_at
            data_at
            dec
            data_len
            s.mem
            data_len
            s'.mem
  unfolding run_step
  recrypted s serves =
      let len : u32 (it.len + 2 ^ 32 - header_size) ≡ data_len = omega arith in
      let moved =
        pg_tde_move_encrypted_data-IsMoved pf is_ecb key (offset_in_file bn it.itemoff)
          (offset_in_file bn new_off) data_at data_at dec data_len s.mem
          (InRange-place it.itemoff (omega arith)) (InRange-place new_off (omega arith)) (inl refl)
          (ground arith) (ground arith) s refl serves in
      (
        moved.0,
        ap
              (λ n.
                pg_tde_move_encrypted_data pf (offset_in_file bn it.itemoff) data_at
                  (offset_in_file bn new_off) data_at n key dec s)
              len
            ∙ moved.1,
        moved.3,
      )

  copied_byte :
      (m : Mem) (i : ℕ)
      → i < it.len
      → sv.set_pd_upper page new_off
          (copy_bytes (page + new_off) (page + it.itemoff) (item_end it - it.itemoff) m)
          (page + new_off + i)
        ≡ m (page + it.itemoff + i)
  copied_byte m i near =
      (keeps (page + new_off + i) 0 new_off _ (ground arith)).1
      ∙ (ap
            (λ b.
              if b
              then m (page + it.itemoff + (page + new_off + i - (page + new_off)))
              else m (page + new_off + i))
            inside
          ∙ ap m (omega arith))
    where
      inside :
          (leb (page + new_off) (page + new_off + i)
            && ltb (page + new_off + i) (page + new_off + (item_end it - it.itemoff)))
          ≡ true
      inside = ground arith

  abbrev moved_state : State → State
  moved_state s2 = record s2 {
    mem =
        sv.set_pd_upper page new_off
          (copy_bytes (page + new_off) (page + it.itemoff) (item_end it - it.itemoff) s2.mem);
  }

  -- The rest of the plan, once the tuple is re-encrypted.
  abbrev then_moved : Option State → Option State
  then_moved o =
      elim (elim o as (λ q. Option State) [
        | none ↦ none
        | some s2 ↦
            run_steps pf sv bn page page key dec
              (move new_off it.itemoff (item_end it - it.itemoff) ∷ []) s2
      ]) [ none ↦ none | some s' ↦ some (record s' { mem = sv.set_pd_upper page new_off s'.mem }) ]

  -- The only tuple of a page, which pgtde_compactify_tuples moves to the end: its header is copied, and its data
  -- decrypts at the new place to what it decrypted to at the old one. The header is of the 24 bytes that the
  -- code takes for it, the buffer on the stack is apart from the page, and line pointers and the page
  -- header lie below the tuple.
  pub compactify_alone-keeps_data :
      (pd_upper max_offset : ℕ) (s : State)
      → Serves s.ctx key
      → (s' : State) × (run_plan pf sv bn page page key dec
            (compactify_tuples pd_special pd_upper max_offset it [] true)
            s
          ≡ some s')
        × ((i : ℕ) → i < header_size → s'.mem (page + new_off + i) ≡ s.mem (page + it.itemoff + i))
        × ((j : ℕ)
            → j < data_len
            → bit_xor
                (s'.mem (page + new_off + (header_size + j)))
                (keystream pf key (offset_in_file bn new_off + j))
              ≡ bit_xor (s.mem (data_at + j)) (keystream pf key (offset_in_file bn it.itemoff + j)))
  unfolding run_plan run_steps run_step
  compactify_alone-keeps_data pd_upper max_offset s serves =
      let s1 : State = record s { mem = sv.set_lp_off page (it.offsetindex + 1) new_off s.mem } in
      let r = recrypted s1 serves in
      let same : (a : Ptr) → page + it.itemoff ≤ a → s1.mem a ≡ s.mem a =
        λ a high. (keeps a (it.offsetindex + 1) new_off s.mem high).0 in
      (
        moved_state r.0,
        ap (λ p. run_plan pf sv bn page page key dec p s)
              (alone_plan pd_special pd_upper max_offset it gap (omega arith))
            ∙ ap then_moved r.1,
        λ i near.
            copied_byte r.0.mem i (omega arith)
            ∙ (r.2.kept (page + it.itemoff + i) (ground arith) (ground arith)
                ∙ same (page + it.itemoff + i) (omega arith)),
        λ j near.
            let old = keystream pf key (offset_in_file bn it.itemoff + j) in
            let new = keystream pf key (offset_in_file bn new_off + j) in
            let at : page + it.itemoff + (header_size + j) ≡ data_at + j = omega arith in
            let byte : r.0.mem (data_at + j) ≡ bit_xor (bit_xor (s.mem (data_at + j)) old) new =
              r.2.moved j near
              ∙ ap (λ b. bit_xor (bit_xor b old) new) (same (data_at + j) (omega arith)) in
            ap (λ b. bit_xor b new)
              (copied_byte r.0.mem (header_size + j) (omega arith) ∙ (ap r.0.mem at ∙ byte))
            ∙ bit_xor-bit_xor (bit_xor (s.mem (data_at + j)) old) new,
      )
