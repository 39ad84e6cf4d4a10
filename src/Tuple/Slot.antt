-- ===== src/Tuple/Slot.antt =====
-- What the executor gets in a slot: a decrypted copy, and for TOAST relations the tuple itself.
use pg_tde.Base.{
  ℕ, ◌+◌, ◌-◌, ◌≤◌, ◌<◌, ◌≡◌, refl, ◌∙◌, sym, ap, inl, ◌⊎◌, bit_xor, Bool, false, some, List, arith,
  Ptr, Mem,
}
use native.Mathlib.Nat.{add_assoc}
use pg_tde.Aes.{Platform, IsEcb}
use pg_tde.Aes.Keystream.{Serves, keystream}
use pg_tde.Crypt.{State}
use pg_tde.Tuple.{
  Server, HeapTuple, blcksz, offset_in_file, pg_tde_crypt_tuple, exec_store_buffer_heap_tuple,
  exec_store_pinned_buffer_heap_tuple,
}
use pg_tde.Tuple.ReadBack.{ReadsHeader, crypt_tuple_lem}

-- `heap_copytuple`: the same bytes at a place that does not meet the tuple's.
pub record IsCopied (tuple : HeapTuple) (m : Mem) (copied : HeapTuple × Mem) : Type 0 where
  pub same : (i : ℕ) → i < tuple.t_len → copied.1 (copied.0.t_data + i) ≡ m (tuple.t_data + i)
  pub source : (i : ℕ) → i < tuple.t_len → copied.1 (tuple.t_data + i) ≡ m (tuple.t_data + i)
  pub apart :
      (tuple.t_data + tuple.t_len ≤ copied.0.t_data)
      ⊎ (copied.0.t_data + tuple.t_len ≤ tuple.t_data)

module _ (pf : Platform) (is_ecb : IsEcb pf) (sv : Server) (reads : ReadsHeader sv) where
  store_of :
      (bn : ℕ) (page : Ptr) (tuple : HeapTuple) (key : List ℕ) (s s' : State)
      → let copied = sv.copy_tuple tuple s.mem in
        pg_tde_crypt_tuple pf sv bn page tuple copied.0 key (record s { mem = copied.1 }) ≡ some s'
        → exec_store_buffer_heap_tuple pf sv false bn page tuple key s
          ≡ some (record tuple { t_data = copied.0.t_data }, s')
  unfolding exec_store_buffer_heap_tuple
  store_of bn page tuple key s s' e = rw e

  -- The routine for pinned buffers hands over the same tuple.
  pub exec_store_pinned-eq-exec_store :
      (is_toast : Bool) (bn : ℕ) (page : Ptr) (tuple : HeapTuple) (key : List ℕ) (s : State)
      → exec_store_pinned_buffer_heap_tuple pf sv is_toast bn page tuple key s
        ≡ exec_store_buffer_heap_tuple pf sv is_toast bn page tuple key s
  unfolding exec_store_buffer_heap_tuple exec_store_pinned_buffer_heap_tuple
  exec_store_pinned-eq-exec_store is_toast bn page tuple key s = refl

  -- A tuple of an ordinary relation goes to its slot as a tuple of the same length whose header is
  -- that of the page and whose data is the page's, each byte decrypted for its place in the file;
  -- the page keeps the encrypted tuple.
  pub exec_store_buffer_heap_tuple-decrypts :
      (bn : ℕ) (page : Ptr) (upper size : ℕ) (key : List ℕ) (s : State)
      → let tuple : HeapTuple = record { t_len = size; t_data = page + upper } in
        let hoff = sv.t_hoff (page + upper) s.mem in
        upper + size ≤ blcksz
        → 23 ≤ hoff
        → hoff ≤ size
        → IsCopied tuple s.mem (sv.copy_tuple tuple s.mem)
        → Serves s.ctx key
        → (t : HeapTuple) × (s' : State) × (exec_store_buffer_heap_tuple pf sv false bn page tuple
              key s
            ≡ some (t, s'))
          × (t.t_len ≡ size)
          × ((i : ℕ) → i < hoff → s'.mem (t.t_data + i) ≡ s.mem (page + upper + i))
          × ((i : ℕ)
              → i < size - hoff
              → s'.mem (t.t_data + hoff + i)
                ≡ bit_xor
                    (s.mem (page + upper + hoff + i))
                    (keystream pf key (offset_in_file bn upper + i)))
          × ((i : ℕ) → i < size → s'.mem (page + upper + i) ≡ s.mem (page + upper + i))
  exec_store_buffer_heap_tuple-decrypts bn page upper size key s fits lo hi copy serves =
      let tuple : HeapTuple = record { t_len = size; t_data = page + upper } in
      let copied = sv.copy_tuple tuple s.mem in
      let hoff = sv.t_hoff (page + upper) s.mem in
      let header : sv.t_hoff (page + upper) copied.1 ≡ hoff =
        reads copied.1 s.mem _ _ (λ i h. copy.source i (omega arith)) in
      let header' : sv.t_hoff copied.0.t_data copied.1 ≡ hoff =
        reads copied.1 s.mem _ _ (λ i h. copy.same i (omega arith)) in
      let apart = copy.apart in
      let dec =
        crypt_tuple_lem pf is_ecb sv reads bn page upper size hoff copied.0 key
          (record s { mem = copied.1 }) fits hi header header' (ground arith) serves in
      let dst = copied.0.t_data in
      (
        record { t_len = size; t_data = dst },
        dec.state,
        store_of bn page tuple key s dec.state dec.returns,
        refl,
        λ i h. dec.bytes.kept (dst + i) (inl (omega arith)) ∙ copy.same i (omega arith),
        λ i h.
            dec.bytes.written i h
            ∙ ap (λ (b : ℕ). bit_xor b (keystream pf key (offset_in_file bn upper + i)))
                (ap copied.1 (add_assoc (page + upper) hoff i)
                  ∙ copy.source (hoff + i) (omega arith)
                  ∙ ap s.mem (sym (add_assoc (page + upper) hoff i))),
        λ i h. dec.bytes.kept (page + upper + i) (ground arith) ∙ copy.source i h,
      )
