-- ===== src/SlotQueue/Elements.antt =====
-- src/upstream_supplicant.rs: the statuses of association results and the elements of a response.
use hisi_rf_ws.Common.{
  ℕ, zero, suc, ◌+◌, ◌-◌, ◌*◌, ◌^◌, ◌≤◌, ◌<◌, ◌≡◌, refl, ◌∙◌, ap, List, [], ◌∷◌, ◌++◌, Option, none,
  some, Bool, false, not, ◌&&◌, ◌||◌, ◌==◌, ltb, leb, if◌then◌else◌, arith, length, length-append,
  All, get_or,
}

abbrev pub vendor_assoc_status_offset : ℕ
vendor_assoc_status_offset = 8000

abbrev pub vendor_auth_status_offset : ℕ
vendor_auth_status_offset = 7000

abbrev pub max_standard_ieee_status : ℕ
max_standard_ieee_status = 255

unfoldable pub vendor_result_requires_stale_state_clear : ℕ → Bool
vendor_result_requires_stale_state_clear raw_status = raw_status == vendor_assoc_status_offset + 30

-- `checked_sub` gives nothing below the offset.
unfoldable pub normalize_vendor_association_status : ℕ → ℕ
normalize_vendor_association_status status =
    let standard = status - vendor_assoc_status_offset in
    if leb vendor_assoc_status_offset status
      && not (standard == 0)
      && leb standard max_standard_ieee_status
    then standard
    else status

unfoldable pub vendor_result_uses_association_reject : ℕ → Bool
vendor_result_uses_association_reject raw_status =
    (raw_status == vendor_assoc_status_offset + 53)
    || (raw_status == vendor_auth_status_offset + 16)

unfoldable pub vendor_result_uses_disconnect : ℕ → Bool
unfolding vendor_result_uses_association_reject
vendor_result_uses_disconnect raw_status =
    not (raw_status == 0) && not (vendor_result_uses_association_reject raw_status)

abbrev pub wlan_eid_timeout_interval : ℕ
wlan_eid_timeout_interval = 56

abbrev pub wlan_timeout_assoc_comeback : ℕ
wlan_timeout_assoc_comeback = 3

abbrev pub drop : ℕ → List ℕ → List ℕ
drop zero xs = xs
drop (suc n) [] = []
drop (suc n) (x ∷ xs) = drop n xs

-- `u32::from_le_bytes`
abbrev pub from_le_bytes : ℕ → ℕ → ℕ → ℕ → ℕ
from_le_bytes a b c d = a + b * 2 ^ 8 + c * 2 ^ 16 + d * 2 ^ 24

-- Whether an element of identifier `id`, with `len` bytes that begin with `body`, is the one searched.
abbrev pub is_comeback : ℕ → ℕ → List ℕ → Bool
is_comeback id len body =
    (id == wlan_eid_timeout_interval)
    && (len == 5)
    && (get_or body 0 0 == wlan_timeout_assoc_comeback)

-- The loop, for at most `fuel` elements.
unfoldable pub comeback_from : ℕ → List ℕ → Option ℕ
comeback_from zero ies = none
comeback_from (suc fuel) [] = none
comeback_from (suc fuel) (id ∷ []) = none
comeback_from (suc fuel) (id ∷ len ∷ body) =
    let rest = comeback_from fuel (drop len body) in
    if ltb (length body) len
    then none
    else if is_comeback id len body
    then some
        (from_le_bytes (get_or body 1 0) (get_or body 2 0) (get_or body 3 0) (get_or body 4 0))
    else rest

-- Each element takes two bytes or more, so the length is fuel enough.
unfoldable pub association_comeback_interval : List ℕ → Option ℕ
unfolding comeback_from
association_comeback_interval ies = comeback_from (length ies) ies

-- An element, which is written as its identifier, its length and its body.
pub record Element : Type 0 where
  pub id : ℕ
  pub body : List ℕ

-- The bytes of a list of elements.
abbrev pub encode : List Element → List ℕ
encode [] = []
encode (e ∷ es) = e.id ∷ length e.body ∷ (e.body ++ encode es)

-- The element is not the one searched for.
abbrev pub Other : Element → Type 0
Other e = is_comeback e.id (length e.body) e.body ≡ false

encode-append :
    (es : List Element) (e : Element) (rest : List ℕ)
    → encode (e ∷ es) ++ rest ≡ e.id ∷ length e.body ∷ (e.body ++ (encode es ++ rest))
encode-append es e rest =
    ap (λ xs. e.id ∷ length e.body ∷ xs) (append_right e.body (encode es) rest)
  where
    append_right : (xs ys zs : List ℕ) → (xs ++ ys) ++ zs ≡ xs ++ (ys ++ zs)
    append_right [] ys zs = refl
    append_right (x ∷ xs) ys zs = ap (λ l. x ∷ l) (append_right xs ys zs)

drop-append : (xs ys : List ℕ) → drop (length xs) (xs ++ ys) ≡ ys
drop-append [] ys = refl
drop-append (x ∷ xs) ys = drop-append xs ys

is_comeback-append :
    (id : ℕ) (body rest : List ℕ)
    → is_comeback id (length body) (body ++ rest) ≡ is_comeback id (length body) body
is_comeback-append id [] rest = ground arith
is_comeback-append id (x ∷ body) rest = refl

-- The search goes on behind an element that is not the one searched for.
comeback_from-skip :
    (fuel : ℕ) (e : Element) (rest : List ℕ)
    → Other e
    → comeback_from (suc fuel) (e.id ∷ length e.body ∷ (e.body ++ rest)) ≡ comeback_from fuel rest
unfolding comeback_from
comeback_from-skip fuel e rest other =
    let fits : ltb (length (e.body ++ rest)) (length e.body) ≡ false =
      ground (arith, length-append e.body rest) in
    rw fits (
      rw (is_comeback-append e.id e.body rest ∙ other)
        (ap (comeback_from fuel) (drop-append e.body rest)))

comeback_here :
    (fuel a b c d : ℕ) (rest : List ℕ)
    → comeback_from (suc fuel) (56 ∷ 5 ∷ 3 ∷ a ∷ b ∷ c ∷ d ∷ rest) ≡ some (from_le_bytes a b c d)
unfolding comeback_from
comeback_here fuel a b c d rest = ground arith

comeback_from-found :
    (fuel : ℕ) (es : List Element) (a b c d : ℕ) (rest : List ℕ)
    → All Other es
    → length es < fuel
    → comeback_from fuel (encode es ++ (56 ∷ 5 ∷ 3 ∷ a ∷ b ∷ c ∷ d ∷ rest))
      ≡ some (from_le_bytes a b c d)
comeback_from-found zero es a b c d rest others enough = absurd (omega arith)
comeback_from-found (suc fuel) [] a b c d rest others enough = comeback_here fuel a b c d rest
comeback_from-found (suc fuel) (e ∷ es) a b c d rest (other, others) enough =
    ap (comeback_from (suc fuel)) (encode-append es e (56 ∷ 5 ∷ 3 ∷ a ∷ b ∷ c ∷ d ∷ rest))
    ∙ comeback_from-skip fuel e (encode es ++ (56 ∷ 5 ∷ 3 ∷ a ∷ b ∷ c ∷ d ∷ rest)) other
    ∙ comeback_from-found fuel es a b c d rest others (omega arith)

length-encode : (es : List Element) → length es ≤ length (encode es)
length-encode [] = omega arith
length-encode (e ∷ es) = omega (arith, length-encode es, length-append e.body (encode es))

-- The comeback interval is read from the first timeout-interval element of five bytes and type 3,
-- whatever other elements stand before it and whatever bytes follow.
pub comeback_found :
    (es : List Element) (a b c d : ℕ) (rest : List ℕ)
    → All Other es
    → association_comeback_interval (encode es ++ (56 ∷ 5 ∷ 3 ∷ a ∷ b ∷ c ∷ d ∷ rest))
      ≡ some (from_le_bytes a b c d)
unfolding association_comeback_interval
comeback_found es a b c d rest others =
    let found : List ℕ = 56 ∷ 5 ∷ 3 ∷ a ∷ b ∷ c ∷ d ∷ rest in
    comeback_from-found (length (encode es ++ found)) es a b c d rest others
      (omega (arith, length-append (encode es) found, length-encode es))
