-- ===== src/Consumer/Lsn.antt =====
-- `ExtractLSN` of consumers/src/redis_updater.cpp: the position of a change in the write-ahead log.
use cdc_pipeline.Base.{◌-◌, ◌/◌, ◌%◌, ◌^◌, ◌≡◌, refl, Option, none, some, ltb, if◌then◌else◌}
use cdc_pipeline.Base.Int.{ℤ, pos, negsuc}
use cdc_pipeline.Base.Decimal.{stoll}
use cdc_pipeline.Json.{Value, int, num, tenths, str, obj, Fields, end, ◌⦂◌⨾◌, find_field, field?}

-- A JSON number holds an int64_t or a uint64_t; `get<int64_t>()` casts it.
unfoldable pub wrap64 : ℤ → ℤ
wrap64 (pos n) = let m = n % 2 ^ 64 in if ltb m (2 ^ 63) then pos m else negsuc (2 ^ 64 - 1 - m)
wrap64 (negsuc n) = negsuc n

-- `v.is_number()` and `v.get<int64_t>()`; a floating point number is truncated.
abbrev pub number? : Value → Option ℤ
number? (int n) = some (wrap64 n)
number? (tenths n) = some (pos (n / 10))
number? _ = none

abbrev or_else : Option ℤ → Option ℤ → Option ℤ
or_else (some n) m = some n
or_else none m = m

-- The first member that is a number, or a text that `stoll` reads.
unfoldable pub member_lsn : Fields → Option ℤ
member_lsn end = none
member_lsn (k ⦂ str s ⨾ rest) = or_else (stoll s) (member_lsn rest)
member_lsn (k ⦂ v ⨾ rest) = or_else (number? v) (member_lsn rest)

unfoldable pub lsn_value : Value → Option ℤ
unfolding member_lsn
lsn_value (str s) = stoll s
lsn_value (obj fs) = member_lsn fs
lsn_value v = number? v

abbrev bind : {A : Type 0} → Option A → (A → Option ℤ) → Option ℤ
bind none f = none
bind (some a) f = f a

-- What `source`, if it is an object, says: its `lsn`, and else its `ts_ms`.
source_lsn : Option Value → Option ℤ
unfolding lsn_value find_field
source_lsn (some (obj src)) =
    or_else (bind (find_field "lsn" src) lsn_value) (bind (find_field "ts_ms" src) number?)
source_lsn _ = none

unfoldable pub extract_lsn : Value → ℤ
unfolding source_lsn field?
extract_lsn record_ =
    elim (or_else (source_lsn (field? "source" record_)) (bind (field? "ts_ms" record_) number?)) [
      | some n ↦ n
      | none ↦ pos 0
    ]

-- Debezium's Avro union wraps the number into an object, and may give it as text.
extract_wrapped :
    extract_lsn (
      obj (
        "source" ⦂ obj ("lsn" ⦂ obj ("long" ⦂ str "24023128" ⨾ end) ⨾ "ts_ms" ⦂ num 5 ⨾ end) ⨾ end))
    ≡ pos 24023128
unfolding extract_lsn stoll
extract_wrapped = refl

-- A text that is no number falls through to the timestamps.
extract_fallback :
    extract_lsn (obj ("source" ⦂ obj ("lsn" ⦂ str "x" ⨾ end) ⨾ "ts_ms" ⦂ num 1700000000000 ⨾ end))
    ≡ pos 1700000000000
unfolding extract_lsn stoll wrap64
extract_fallback = refl
