-- ===== src/Params/Few.antt =====
-- How many entries a map has after some insertions.
use epay_sdk_rust.Common.{ℕ, suc, ◌≤◌, Option, none, some, List, [], ◌∷◌, arith, length}
use epay_sdk_rust.Text.{Text}
use epay_sdk_rust.BTreeMap
use epay_sdk_rust.Params.{Params, insert, insert_opt}
use epay_sdk_rust.Params.Valid.{IsValid, insert-IsValid}

length-insert :
    (k v : Text) (m : List (Text × Text)) → length (BTreeMap.insert k v m) ≤ suc (length m)
unfolding BTreeMap.insert
length-insert k v [] = omega arith
length-insert k v ((j, w) ∷ m) = ground (arith, length-insert k v m)

-- a valid map with at most `n` entries
abbrev pub Fits : ℕ → Params → Type 0
Fits n p = IsValid p × (length p.inner ≤ n)

pub insert-Fits : (k v : Text) {n : ℕ} {p : Params} → Fits n p → Fits (suc n) (insert k v p)
unfolding insert
insert-Fits k [] {n} {p} (h, few) = (insert-IsValid k [] h, omega arith)
insert-Fits k (c ∷ v) {n} {p} (h, few) =
    (insert-IsValid k (c ∷ v) h, omega (arith, length-insert k (c ∷ v) p.inner))

pub insert_opt-Fits :
    (k : Text) (o : Option Text) {n : ℕ} {p : Params} → Fits n p → Fits (suc n) (insert_opt k o p)
unfolding insert_opt
insert_opt-Fits k none {n} {p} (h, few) = (h, omega arith)
insert_opt-Fits k (some v) fits = insert-Fits k v fits
