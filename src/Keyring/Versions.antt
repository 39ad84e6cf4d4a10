-- ===== src/Keyring/Versions.antt =====
-- Versions of a key: the newest one, and the making of a new one, with a key file or no provider.
use pg_tde.Base.{
  ℕ, zero, suc, ◌+◌, ◌-◌, ◌≤◌, ◌<◌, ◌≡◌, ◌≢◌, refl, ◌∙◌, sym, ap, ◌⊎◌, inl, inr, true, false,
  Option, none, some, List, arith, length, Option-cases, Bool-cases, dec_lt, if◌then◌else◌, ◌==◌,
  ◌^◌,
}
use pg_tde.Keyring.{
  KeyName, KeyInfo, Keyring, KeyringProvider, World, ret, unknown_provider, file_provider, find_key,
  provider_get_key, keyring_get_key, construct_key_name, latest_loop, keyring_get_latest_key,
  generate_version, generate_loop, keyring_generate_key,
}
use pg_tde.Keyring.Find.{remove, length-remove-lt, find_key-remove}

-- Providers that add nothing to the cache on a lookup.
abbrev pub IsLocal : KeyringProvider → Type 0
IsLocal p = (p ≡ unknown_provider) ⊎ (p ≡ file_provider)

-- A lookup is the search through the cache.
get_key-local :
    (w : World) (name : KeyName) (s : Keyring)
    → IsLocal s.provider
    → keyring_get_key w name s ≡ ret (find_key name s.keys) s
unfolding keyring_get_key provider_get_key
get_key-local w name s is = elim (Option-cases (find_key name s.keys)) [
  | inr (k, e) ↦ rw (keyring_get_key, e)
  | inl e ↦ rw (keyring_get_key, e) (missing is)
]
  where
    missing : IsLocal s.provider → provider_get_key w s.provider name s ≡ ret none s
    missing (inl p) = ap (λ q. provider_get_key w q name s) p
    missing (inr p) = ap (λ q. provider_get_key w q name s) p

module _ (w : World) (internal_name : List ℕ) (s : Keyring) (local : IsLocal s.provider) where
  abbrev pub version_name : ℕ → KeyName
  version_name i = construct_key_name w s.key_prefix internal_name i

  latest_loop-none :
      (fuel i : ℕ) (prev : Option KeyInfo)
      → find_key (version_name i) s.keys ≡ none
      → latest_loop w (suc fuel) internal_name i prev s ≡ some (ret prev s)
  unfolding latest_loop
  latest_loop-none fuel i prev e = rw (latest_loop, get_key-local w (version_name i) s local, e)

  latest_loop-some :
      (fuel i : ℕ) (prev : Option KeyInfo) (k : KeyInfo)
      → find_key (version_name i) s.keys ≡ some k
      → latest_loop w (suc fuel) internal_name i prev s
        ≡ latest_loop w fuel internal_name (i + 1) (some k) s
  unfolding latest_loop
  latest_loop-some fuel i prev k e = rw (latest_loop, get_key-local w (version_name i) s local, e)

  generate_loop-none :
      (fuel key_len i : ℕ)
      → find_key (version_name i) s.keys ≡ none
      → generate_loop w (suc fuel) internal_name key_len i s
        ≡ some (generate_version w internal_name key_len i s)
  unfolding generate_loop
  generate_loop-none fuel key_len i e =
      rw (generate_loop, get_key-local w (version_name i) s local, e)

  generate_loop-some :
      (fuel key_len i : ℕ) (k : KeyInfo)
      → find_key (version_name i) s.keys ≡ some k
      → generate_loop w (suc fuel) internal_name key_len i s
        ≡ generate_loop w fuel internal_name key_len (i + 1) s
  unfolding generate_loop
  generate_loop-some fuel key_len i k e =
      rw (generate_loop, get_key-local w (version_name i) s local, e)

  -- The versions from `i` on that are there come before `n`, and `n` is not there.
  pub record IsFirstGap (i n : ℕ) : Type 0 where
    pub from : i ≤ n
    pub gap : find_key (version_name n) s.keys ≡ none
    pub there :
        (j : ℕ) → i ≤ j → j < n → (k : KeyInfo) × (find_key (version_name j) s.keys ≡ some k)

  IsFirstGap-pred :
      (i n : ℕ) (k : KeyInfo)
      → find_key (version_name i) s.keys ≡ some k
      → IsFirstGap (i + 1) n
      → IsFirstGap i n
  IsFirstGap-pred i n k e g = record {
    from = let lt = g.from in omega arith;
    gap = g.gap;
    there = λ j lo hi. elim (dec_lt i j) [
      | yes later ↦ g.there j (omega arith) hi
      | no now ↦ let same : j ≡ i = omega arith in (k, rw same e)
    ];
  }

  -- What a loop returns that has met version `n - 1` last.
  last_version :
      (i n : ℕ) (k : KeyInfo) (prev : Option KeyInfo)
      → find_key (version_name i) s.keys ≡ some k
      → i + 1 ≤ n
      → (if n == i + 1 then some k else find_key (version_name (n - 1)) s.keys)
        ≡ (if n == i then prev else find_key (version_name (n - 1)) s.keys)
  last_version i n k prev e h =
      let not_first : (n == i) ≡ false = ground arith in
      elim (Bool-cases (n == i + 1)) [
        | inl now ↦ let at : n - 1 ≡ i = ground arith in rw (not_first, now, at) (sym e)
        | inr later ↦ rw (not_first, later)
      ]

  -- The names of different versions differ.
  abbrev pub NamesDiffer : Type 0
  NamesDiffer = (i j : ℕ) → i < 2 ^ 31 → j < 2 ^ 31 → i ≢ j → version_name i ≢ version_name j

  module _ (differ : NamesDiffer) where
    -- Both loops end at the first version that is not there: each round finds another entry of the
    -- cache, so more rounds than entries are not needed. `left` are the entries not yet met.
    loops-IsFirstGap :
        (fuel i key_len : ℕ) (prev : Option KeyInfo) (left : List KeyInfo)
        → length left < fuel
        → i + fuel < 2 ^ 31
        → ((j : ℕ)
            → i ≤ j
            → j < 2 ^ 31
            → find_key (version_name j) left ≡ find_key (version_name j) s.keys)
        → (n : ℕ) × IsFirstGap i n
          × (n < i + fuel)
          × (latest_loop w fuel internal_name i prev s
              ≡ some (ret (if n == i then prev else find_key (version_name (n - 1)) s.keys) s))
          × (generate_loop w fuel internal_name key_len i s
              ≡ some (generate_version w internal_name key_len n s))
    loops-IsFirstGap zero i key_len prev left few small same = absurd (omega arith)
    loops-IsFirstGap (suc fuel) i key_len prev left few small same =
        elim (Option-cases (find_key (version_name i) s.keys)) [
          | inl e ↦
              let test : (i == i) ≡ true = ground arith in
              (
                i,
                record { from = omega arith; gap = e; there = λ j lo hi. absurd (omega arith) },
                omega arith,
                rw test (latest_loop-none fuel i prev e),
                generate_loop-none fuel key_len i e,
              )
          | inr (k, e) ↦
              let name = version_name i in
              let rest =
                loops-IsFirstGap fuel (i + 1) key_len (some k) (remove name left)
                  (smaller name left k (same i (omega arith) (omega arith) ∙ e) few) (omega arith)
                  (λ j lo hi.
                    find_key-remove name (version_name j) left
                      (differ i j (omega arith) hi (omega arith))
                    ∙ same j (omega arith) hi) in
              (
                rest.0,
                IsFirstGap-pred i rest.0 k e rest.1,
                omega (arith, rest.2),
                latest_loop-some fuel i prev k e
                    ∙ rest.3
                    ∙ ap (λ (r : Option KeyInfo). some (ret r s))
                        (last_version i rest.0 k prev e rest.1.from),
                generate_loop-some fuel key_len i k e ∙ rest.4,
              )
        ]
      where
        smaller :
            (name : KeyName) (left : List KeyInfo) (k : KeyInfo)
            → find_key name left ≡ some k
            → length left < suc fuel
            → length (remove name left) < fuel
        smaller name left k e few = omega (arith, length-remove-lt name left k e)

    -- `keyringGetLatestKey` returns, and changes nothing: with versions 1 to `n - 1` in the cache
    -- and version `n` not, it is version `n - 1`, and NULL when there is no version 1. More rounds
    -- than there are keys are enough.
    pub keyring_get_latest_key_lem :
        (fuel : ℕ)
        → length s.keys < fuel
        → fuel + 1 < 2 ^ 31
        → (n : ℕ) × IsFirstGap 1 n
          × (keyring_get_latest_key w fuel internal_name s
              ≡ some (ret (if n == 1 then none else find_key (version_name (n - 1)) s.keys) s))
    unfolding keyring_get_latest_key
    keyring_get_latest_key_lem fuel few small =
        let run = loops-IsFirstGap fuel 1 0 none s.keys few (omega arith) (λ j lo hi. refl) in
        (run.0, run.1, run.3)

    -- `keyringGenerateKey` makes the first version that is not there.
    pub keyring_generate_key_lem :
        (fuel key_len : ℕ)
        → length s.keys < fuel
        → fuel + 1 < 2 ^ 31
        → (n : ℕ) × IsFirstGap 1 n
          × (n < 1 + fuel)
          × (keyring_generate_key w fuel internal_name key_len s
              ≡ some (generate_version w internal_name key_len n s))
    unfolding keyring_generate_key
    keyring_generate_key_lem fuel key_len few small =
        let run = loops-IsFirstGap fuel 1 key_len none s.keys few (omega arith) (λ j lo hi. refl) in
        (run.0, run.1, run.2, run.4)
