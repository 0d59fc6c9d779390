-- ===== src/Consumer/Redis/Latest.antt =====
-- The scripts under replays and reordering: the change with the greatest LSN stays.
use text.Mathlib.TextLemmas.{
  append-nil as str_append-nil, append_cancel_left, append_cancel_right, nil≢cons,
}
use cdc_pipeline.Base.{
  ◌+◌, ◌^◌, ◌≤◌, String, ◌≡◌, refl, sym, ap, ◌∙◌, ◌≢◌, ◌⊎◌, inl, inr, true, false, none, some, List,
  [], ◌∷◌, ◌++◌, arith, str_eq_iff, str_eq_refl, Bool-cases, All, if◌then◌else◌,
}
use cdc_pipeline.Base.Int.{ℤ, pos_part, neg_part, ◌≤ℤ◌, ◌<ℤ◌}
use cdc_pipeline.Base.Text.{show_ℤ}
use cdc_pipeline.Base.Decimal.{IsInt64}
use cdc_pipeline.Consumer.Redis.{
  Keys, update, Lua, lsn_key, is_stale, is_stale_text, Write, run_script, run_scripts,
}

-- What the scripts rely on of Lua's numbers: `tonumber` reads a printed int64_t as the nearest
-- double, rounding keeps the order, and up to 2^53 it loses nothing.
abbrev pub IsExact : ℤ → Type 0
IsExact n = pos_part n + neg_part n ≤ 2 ^ 53

pub record IsLua (L : Lua) : Type 0 where
  pub double : ℤ → L.Number
  pub tonumber-show : (n : ℤ) → IsInt64 n → L.tonumber (show_ℤ n) ≡ some (double n)
  pub le_mono : (a b : ℤ) → a ≤ℤ b → L.le (double a) (double b) ≡ true
  pub le_exact : (a b : ℤ) → IsExact a → IsExact b → b <ℤ a → L.le (double a) (double b) ≡ false

-- No key of one order is a key of the other.
pub record Apart (j k : String) : Type 0 where
  pub keys : j ≢ k
  pub key-lsn : j ≢ lsn_key k
  pub lsn-key : lsn_key j ≢ k

key-ne-lsn_key : (k : String) → k ≢ lsn_key k
key-ne-lsn_key k e = nil≢cons (append_cancel_left k "" ":lsn" (str_append-nil k ∙ e))

lsn_key-injective : (j k : String) → lsn_key j ≡ lsn_key k → j ≡ k
lsn_key-injective j k e = append_cancel_right j k ":lsn" e

module _ (L : Lua) (e : Write) (keys : Keys) where
  -- Both scripts in one form.
  run_script_lem : run_script L e keys ≡ (
      if is_stale L keys e.key (show_ℤ e.lsn)
      then (0, keys)
      else (1, update (update keys e.key e.value) (lsn_key e.key) (some (show_ℤ e.lsn))))
  unfolding run_script
  run_script_lem = ground arith

  pub run_script_stale :
      is_stale L keys e.key (show_ℤ e.lsn) ≡ true → run_script L e keys ≡ (0, keys)
  run_script_stale h = rw (run_script_lem, h) refl

  pub run_script_fresh :
      is_stale L keys e.key (show_ℤ e.lsn) ≡ false
      → ((run_script L e keys).1 e.key ≡ e.value)
        × ((run_script L e keys).1 (lsn_key e.key) ≡ some (show_ℤ e.lsn))
  unfolding update
  run_script_fresh h =
      rw (run_script_lem, h)
        (
          ground (
            arith,
            str_eq_iff (lsn_key e.key) e.key,
            str_eq_iff e.key e.key,
            key-ne-lsn_key e.key,
          ),
          rw (str_eq_refl (lsn_key e.key)) refl,
        )

  -- The script of a change to another order reads and writes other keys.
  run_script-Apart :
      (k : String)
      → Apart e.key k
      → ((run_script L e keys).1 k ≡ keys k)
        × ((run_script L e keys).1 (lsn_key k) ≡ keys (lsn_key k))
  unfolding update
  run_script-Apart k a = rw run_script_lem (
      ground (
        arith,
        str_eq_iff e.key k,
        str_eq_iff e.key (lsn_key k),
        str_eq_iff (lsn_key e.key) k,
        str_eq_iff (lsn_key e.key) (lsn_key k),
        lsn_key-injective e.key k,
      ))

-- How the scripts compare two printed positions.
module _ (L : Lua) (I : IsLua L) (keys : Keys) (key : String) (l c : ℤ) (fits : IsInt64 l)
    (fits' : IsInt64 c) (there : keys (lsn_key key) ≡ some (show_ℤ c)) where
  pub is_stale_of_le : l ≤ℤ c → is_stale L keys key (show_ℤ l) ≡ true
  unfolding is_stale
  is_stale_of_le h =
      rw (there, I.tonumber-show l fits)
        (rw (I.tonumber-show c fits', is_stale_text) (I.le_mono l c h))

  is_stale_of_lt : IsExact l → IsExact c → c <ℤ l → is_stale L keys key (show_ℤ l) ≡ false
  unfolding is_stale
  is_stale_of_lt el ec h =
      rw (there, I.tonumber-show l fits)
        (rw (I.tonumber-show c fits', is_stale_text) (I.le_exact l c el ec h))

is_stale_of_none :
    (L : Lua) (keys : Keys) (key lsn : String)
    → keys (lsn_key key) ≡ none
    → is_stale L keys key lsn ≡ false
unfolding is_stale
is_stale_of_none L keys key lsn h = rw h refl

module _ (L : Lua) (I : IsLua L) (m : Write) (fits : IsInt64 m.lsn) (exact : IsExact m.lsn) where
  abbrev k : String
  k = m.key

  -- What is stored for the key is what the change `m` wrote.
  abbrev pub Holds : Keys → Type 0
  Holds keys = (keys k ≡ m.value) × (keys (lsn_key k) ≡ some (show_ℤ m.lsn))

  -- What is stored for the key, if anything, is older than `m`.
  abbrev pub IsOlder : Keys → Type 0
  IsOlder keys =
      (keys (lsn_key k) ≡ none)
      ⊎ ((c : ℤ) × (keys (lsn_key k) ≡ some (show_ℤ c)) × IsInt64 c × IsExact c × (c <ℤ m.lsn))

  -- A change of another order, or one of this order that is older than `m`.
  abbrev pub Earlier : Write → Type 0
  Earlier e = Apart e.key k ⊎ ((e.key ≡ k) × IsInt64 e.lsn × IsExact e.lsn × (e.lsn <ℤ m.lsn))

  -- A change of another order, or one of this order that is not newer than `m`.
  abbrev pub NotNewer : Write → Type 0
  NotNewer e = Apart e.key k ⊎ ((e.key ≡ k) × IsInt64 e.lsn × (e.lsn ≤ℤ m.lsn))

  run_script-Holds : (keys : Keys) → IsOlder keys → Holds (run_script L m keys).1
  run_script-Holds keys (inl h) =
      run_script_fresh L m keys (is_stale_of_none L keys k (show_ℤ m.lsn) h)
  run_script-Holds keys (inr (c, there, fits', exact', lt)) =
      run_script_fresh L m keys (is_stale_of_lt L I keys k m.lsn c fits fits' there exact exact' lt)

  run_script-IsOlder :
      (e : Write) (keys : Keys) → Earlier e → IsOlder keys → IsOlder (run_script L e keys).1
  run_script-IsOlder e keys (inl a) older = rw (run_script-Apart L e keys k a).1 older
  run_script-IsOlder e keys (inr (p, fits', exact', lt)) older =
      elim (Bool-cases (is_stale L keys e.key (show_ℤ e.lsn))) [
        | inl stale ↦ rw (run_script_stale L e keys stale) older
        | inr fresh ↦ inr (
          e.lsn,
          ap (λ j. (run_script L e keys).1 (lsn_key j)) (sym p)
              ∙ (run_script_fresh L e keys fresh).1,
          fits',
          exact',
          lt,
        )
      ]

  run_script-keeps :
      (e : Write) (keys : Keys) → NotNewer e → Holds keys → Holds (run_script L e keys).1
  run_script-keeps e keys (inl a) (value, lsn) =
      let (same, same_lsn) = run_script-Apart L e keys k a in (same ∙ value, same_lsn ∙ lsn)
  run_script-keeps e keys (inr (p, fits', le)) holds =
      let there : keys (lsn_key e.key) ≡ some (show_ℤ m.lsn) =
        ap (λ j. keys (lsn_key j)) p ∙ holds.1 in
      rw (run_script_stale L e keys (is_stale_of_le L I keys e.key e.lsn m.lsn fits' fits there le))
        holds

  run_scripts-IsOlder :
      (es : List Write) (keys : Keys)
      → All Earlier es
      → IsOlder keys
      → IsOlder (run_scripts L es keys)
  unfolding run_scripts
  run_scripts-IsOlder [] keys h older = older
  run_scripts-IsOlder (e ∷ es) keys h older =
      run_scripts-IsOlder es (run_script L e keys).1 h.1 (run_script-IsOlder e keys h.0 older)

  run_scripts-keeps :
      (es : List Write) (keys : Keys) → All NotNewer es → Holds keys → Holds (run_scripts L es keys)
  unfolding run_scripts
  run_scripts-keeps [] keys h holds = holds
  run_scripts-keeps (e ∷ es) keys h holds =
      run_scripts-keeps es (run_script L e keys).1 h.1 (run_script-keeps e keys h.0 holds)

  run_scripts-append :
      (es fs : List Write) (keys : Keys)
      → run_scripts L (es ++ fs) keys ≡ run_scripts L fs (run_scripts L es keys)
  unfolding run_scripts
  run_scripts-append [] fs keys = refl
  run_scripts-append (e ∷ es) fs keys = run_scripts-append es fs (run_script L e keys).1

  -- Whatever the order in which the changes of an order arrive, with replays and with changes of
  -- other orders between them, the one with the greatest LSN stays.
  pub run_scripts-Holds :
      (before after : List Write) (keys : Keys)
      → IsOlder keys
      → All Earlier before
      → All NotNewer after
      → Holds (run_scripts L (before ++ m ∷ after) keys)
  run_scripts-Holds before after keys older b a = rw run_scripts-append (
      unfold run_scripts in
      run_scripts-keeps after (run_script L m (run_scripts L before keys)).1 a
        (run_script-Holds (run_scripts L before keys) (run_scripts-IsOlder before keys b older)))
