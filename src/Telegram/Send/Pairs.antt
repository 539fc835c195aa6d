-- ===== src/Telegram/Send/Pairs.antt =====
-- The surrogate pairs among the units of a reply of internal/telegram/client.go.
use agent_chun_su.Base.{
  ℕ, zero, suc, ◌≤◌, ◌-◌, ◌≡◌, Bool, Bool-cases, inl, inr, true, false, List, [], ◌∷◌, ◌++◌, arith,
  leb, ◌&&◌, if◌then◌else◌,
}
use agent_chun_su.Table.{length, take, drop}
use agent_chun_su.Telegram.Send.{is_high, unit_at, backed_up}

-- A unit that ends a surrogate pair.
abbrev pub is_low : ℕ → Bool
is_low u = leb 56320 u && leb u 57343

-- Each unit that begins a pair is followed by one that ends it, and there are no others that end
-- one; the first argument tells whether the units come after one that begins a pair.
unfoldable pub paired_from : Bool → List ℕ → Bool
paired_from false [] = true
paired_from true [] = false
paired_from true (u ∷ us) = is_low u && paired_from false us
paired_from false (u ∷ us) =
    let plain = paired_from false us in
    let begun = paired_from true us in
    if is_low u then false else if is_high u then begun else plain

paired-take :
    (begun : Bool) (n : ℕ) (us : List ℕ)
    → paired_from begun us ≡ true
    → suc n ≤ length us
    → is_high (unit_at us n) ≡ false
    → paired_from begun (take (suc n) us) ≡ true
unfolding paired_from take unit_at
paired-take b n [] p h l = absurd (omega arith)
paired-take true zero (u ∷ us) p h l = ground arith
paired-take false zero (u ∷ us) p h l = ground arith
paired-take true (suc n) (u ∷ us) p h l = ground (arith, paired-take false n us)
paired-take false (suc n) (u ∷ us) p h l =
    ground (arith, paired-take false n us, paired-take true n us)

paired-drop :
    (begun : Bool) (n : ℕ) (us : List ℕ)
    → paired_from begun us ≡ true
    → suc n ≤ length us
    → is_high (unit_at us n) ≡ false
    → paired_from false (drop (suc n) us) ≡ true
unfolding paired_from drop unit_at
paired-drop b n [] p h l = absurd (omega arith)
paired-drop true zero (u ∷ us) p h l = ground arith
paired-drop false zero (u ∷ us) p h l = ground arith
paired-drop true (suc n) (u ∷ us) p h l = ground (arith, paired-drop false n us)
paired-drop false (suc n) (u ∷ us) p h l =
    ground (arith, paired-drop false n us, paired-drop true n us)

-- A unit that begins a pair does not come right after another one.
high-before :
    (begun : Bool) (n : ℕ) (us : List ℕ)
    → paired_from begun us ≡ true
    → is_high (unit_at us (suc n)) ≡ true
    → is_high (unit_at us n) ≡ false
unfolding paired_from unit_at
high-before b n [] p h = ground arith
high-before b zero (u ∷ []) p h = ground arith
high-before true zero (u ∷ v ∷ us) p h = ground arith
high-before false zero (u ∷ v ∷ us) p h = ground arith
high-before true (suc n) (u ∷ us) p h = ground (arith, high-before false n us)
high-before false (suc n) (u ∷ us) p h =
    ground (arith, high-before false n us, high-before true n us)

pub paired-append :
    (begun : Bool) (us vs : List ℕ)
    → paired_from begun us ≡ true
    → paired_from false vs ≡ true
    → paired_from begun (us ++ vs) ≡ true
unfolding paired_from
paired-append true [] vs p q = ground arith
paired-append false [] vs p q = q
paired-append true (u ∷ us) vs p q = ground (arith, paired-append false us vs)
paired-append false (u ∷ us) vs p q =
    ground (arith, paired-append false us vs, paired-append true us vs)

before : (n : ℕ) → suc (suc n) - 1 ≡ suc n
before n = omega arith

-- Where a cut is backed up, it divides no pair.
pub backed_up-cut :
    (n : ℕ) (us : List ℕ)
    → paired_from false us ≡ true
    → suc (suc n) ≤ length us
    → (paired_from false (take (backed_up us (suc (suc n))) us) ≡ true)
      × (paired_from false (drop (backed_up us (suc (suc n))) us) ≡ true)
backed_up-cut n us p h = elim (Bool-cases (is_high (unit_at us (suc n)))) [
  | inl high ↦
      rw (before n, high)
        (
          paired-take false n us p (omega arith) (high-before false n us p high),
          paired-drop false n us p (omega arith) (high-before false n us p high),
        )
  | inr other ↦
      rw (before n, other)
        (paired-take false (suc n) us p h other, paired-drop false (suc n) us p h other)
]
