-- ===== src/Crypt/Move.antt =====
-- `pg_tde_move_encrypted_data`: tuples change their place in the file and stay readable.
use pg_tde.Base.{
  ℕ, zero, suc, ◌+◌, ◌-◌, ◌*◌, ◌/◌, ◌≤◌, ◌<◌, ◌≡◌, refl, ◌∙◌, ap, subst, ◌⊎◌, inl, min, bit_xor,
  some, List, arith, ltb, lt→ltb, u32, u64, true, dec_lt, Ptr, Mem, Outside,
}
use pg_tde.Aes.{Platform, IsEcb}
use pg_tde.Aes.Keystream.{Serves, keystream}
use pg_tde.Crypt.{State, pg_tde_crypt, move_batches, pg_tde_move_encrypted_data}
use pg_tde.Crypt.Batches.{NoOverlap, InRange}
use pg_tde.Crypt.Stream.{pg_tde_crypt-IsCrypted}

-- Two ranges that do not meet.
abbrev pub Apart : Ptr → ℕ → Ptr → ℕ → Type 0
Apart p n q k = (p + n ≤ q) ⊎ (q + k ≤ p)

u64_lem : (offset len n : ℕ) → InRange offset len → n ≤ len → u64 (offset + n) ≡ offset + n
u64_lem offset len n range h = let fits = range.blocks_fit in omega arith

InRange-part : (offset len n b : ℕ) → InRange offset len → n + b ≤ len → InRange (offset + n) b
InRange-part offset len n b range h =
    let start_fits = range.blocks_fit in
    let len_fits = range.counts_fit in record { blocks_fit = omega arith; counts_fit = omega arith }

module _ (pf : Platform) (is_ecb : IsEcb pf) (key : List ℕ) (read_off write_off : ℕ)
    (read_data write_data dec : Ptr) (data_len : ℕ) (m0 : Mem) where
  -- The first `n` bytes are moved; beside them only the local buffer has changed.
  pub record IsMoved (n : ℕ) (m : Mem) : Type 0 where
    pub moved :
        (i : ℕ)
        → i < n
        → m (write_data + i)
          ≡ bit_xor
              (bit_xor (m0 (read_data + i)) (keystream pf key (read_off + i)))
              (keystream pf key (write_off + i))
    pub kept : (a : Ptr) → Outside write_data n a → Outside dec 1600 a → m a ≡ m0 a

  module _ (read_in : InRange read_off data_len) (write_in : InRange write_off data_len)
      (apart : NoOverlap read_data write_data data_len)
      (dec_read : Apart dec 1600 read_data data_len)
      (dec_write : Apart dec 1600 write_data data_len) where
    unmoved :
        (n j : ℕ) (m : Mem)
        → IsMoved n m
        → n + j < data_len
        → m (read_data + n + j) ≡ m0 (read_data + n + j)
    unmoved n j m w lt = w.kept (read_data + n + j) (ground arith) (ground arith)

    -- One round: at most 1600 bytes through the buffer.
    move_round :
        (n b : ℕ) (s : State)
        → b ≤ 1600
        → n + b ≤ data_len
        → Serves s.ctx key
        → IsMoved n s.mem
        → (s1 s2 : State) × (pg_tde_crypt pf (u64 (read_off + n)) (read_data + n) b dec key s
            ≡ some s1)
          × (pg_tde_crypt pf (u64 (write_off + n)) dec b (write_data + n) key s1 ≡ some s2)
          × Serves s2.ctx key
          × IsMoved (n + b) s2.mem
    move_round n b s h1 h2 serves w =
        let read_n : u64 (read_off + n) ≡ read_off + n =
          u64_lem read_off data_len n read_in (omega arith) in
        let write_n : u64 (write_off + n) ≡ write_off + n =
          u64_lem write_off data_len n write_in (omega arith) in
        let first =
          pg_tde_crypt-IsCrypted pf is_ecb (read_off + n) (read_data + n) b dec key s
            (InRange-part read_off data_len n b read_in h2) (ground arith) serves in
        let second =
          pg_tde_crypt-IsCrypted pf is_ecb (write_off + n) dec b (write_data + n) key first.state
            (InRange-part write_off data_len n b write_in h2) (ground arith) first.serves in
        (
          first.state,
          second.state,
          rw read_n first.returns,
          rw write_n second.returns,
          second.serves,
          record {
            moved = λ i h. elim (dec_lt i n) [
              | yes old ↦
                  second.bytes.kept (write_data + i) (inl (omega arith))
                  ∙ first.bytes.kept (write_data + i) (ground arith)
                  ∙ w.moved i old
              | no new ↦
                  let j = i - n in
                  let at : write_data + i ≡ write_data + n + j = omega arith in
                  let read_at : read_data + n + j ≡ read_data + i = omega arith in
                  let read_pos : read_off + n + j ≡ read_off + i = omega arith in
                  let write_pos : write_off + n + j ≡ write_off + i = omega arith in
                  ap second.state.mem at
                  ∙ second.bytes.written j (omega arith)
                  ∙ ap (λ (v : ℕ). bit_xor v (keystream pf key (write_off + n + j)))
                      (first.bytes.written j (omega arith)
                        ∙ ap (λ (v : ℕ). bit_xor v (keystream pf key (read_off + n + j)))
                            (unmoved n j s.mem w (omega arith)))
                  ∙ rw (read_at, read_pos, write_pos)
            ];
            kept = λ a o o'.
                second.bytes.kept a (ground arith)
                ∙ first.bytes.kept a (ground arith)
                ∙ w.kept a (ground arith) o';
          },
        )

    -- The loop body and its end, given what the two calls return.
    move_batches-lt :
        (fuel left n b : ℕ) (s s1 s2 : State)
        → 0 < left
        → b ≡ min (min 1600 data_len) left
        → pg_tde_crypt pf (u64 (read_off + n)) (read_data + n) b dec key s ≡ some s1
        → pg_tde_crypt pf (u64 (write_off + n)) dec b (write_data + n) key s1 ≡ some s2
        → move_batches pf
            (suc fuel)
            left
            read_off
            read_data
            write_off
            write_data
            data_len
            key
            dec
            n
            s
          ≡ move_batches pf fuel
              (left - b)
              read_off
              read_data
              write_off
              write_data
              data_len
              key
              dec
              (u32 (n + b))
              s2
    unfolding move_batches
    move_batches-lt fuel left n b s s1 s2 h e first second =
        let test : ltb 0 left ≡ true = lt→ltb _ _ h in
        rw (move_batches, test, ← e, first, ← e, second, ← e)

    move_batches-zero :
        (fuel n : ℕ) (s : State)
        → move_batches pf (suc fuel) 0 read_off read_data write_off write_data data_len key dec n s
          ≡ some s
    unfolding move_batches
    move_batches-zero fuel n s = refl

    move_batches-IsMoved :
        (fuel left n : ℕ) (s : State)
        → Serves s.ctx key
        → IsMoved n s.mem
        → n + left ≡ data_len
        → left ≤ 1600 * fuel
        → (s' : State) × (move_batches pf
              (suc fuel)
              left
              read_off
              read_data
              write_off
              write_data
              data_len
              key
              dec
              n
              s
            ≡ some s')
          × Serves s'.ctx key
          × IsMoved data_len s'.mem
    move_batches-IsMoved fuel zero n s serves w e enough =
        let e' : n ≡ data_len = omega arith in
        (s, move_batches-zero fuel n s, serves, subst (λ k. IsMoved k s.mem) e' w)
    move_batches-IsMoved zero (suc left) n s serves w e enough = absurd (omega arith)
    move_batches-IsMoved (suc fuel) (suc left) n s serves w e enough =
        let b = min (min 1600 data_len) (suc left) in
        let in_data : n + b ≤ data_len = omega arith in
        let round = move_round n b s (omega arith) in_data serves w in
        let rest =
          move_batches-IsMoved fuel (suc left - b) (n + b) round.1 round.4 round.5 (omega arith)
            (omega arith) in
        let len_fits = read_in.counts_fit in
        let next : u32 (n + b) ≡ n + b = omega arith in
        (
          rest.0,
          move_batches-lt (suc fuel) (suc left) n b s round.0 round.1 (omega arith) refl round.2
                round.3
              ∙ ap
                  (λ (k : ℕ).
                    move_batches pf (suc fuel) (suc left - b) read_off read_data write_off
                      write_data data_len key dec k round.1)
                  next
              ∙ rest.1,
          rest.2,
          rest.3,
        )

    -- Moving data from one place of the file to another through a buffer of its own, in place or
    -- to a range that does not meet the old one: it succeeds, and the bytes that were encrypted for
    -- the old place are encrypted for the new one.
    pub pg_tde_move_encrypted_data-IsMoved :
        (s : State)
        → s.mem ≡ m0
        → Serves s.ctx key
        → (s' : State) × (pg_tde_move_encrypted_data pf read_off read_data write_off write_data
              data_len key dec s
            ≡ some s')
          × Serves s'.ctx key
          × IsMoved data_len s'.mem
    unfolding pg_tde_move_encrypted_data
    pg_tde_move_encrypted_data-IsMoved s e serves =
        let start : IsMoved 0 s.mem = record {
          moved = λ i h. absurd (omega arith);
          kept = λ a o o'. ap (λ (m : Mem). m a) e;
        } in
        let fuel : data_len / 1600 + 2 ≡ suc (data_len / 1600 + 1) = omega arith in
        let run =
          move_batches-IsMoved (data_len / 1600 + 1) data_len 0 s serves start (omega arith)
            (omega arith) in
        (
          run.0,
          ap
                (λ (k : ℕ).
                  move_batches pf k data_len read_off read_data write_off write_data data_len key
                    dec 0 s)
                fuel
              ∙ run.1,
          run.2,
          run.3,
        )
