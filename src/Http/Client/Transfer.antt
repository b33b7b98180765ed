-- ===== src/Http/Client/Transfer.antt =====
-- What a transfer leaves in the result.
use ungula_lib_net.Base.{
  length-append, Bool-cases, inl, inr, ◌&&◌, ℕ, zero, suc, ◌-◌, ◌≤◌, ◌<◌, ◌≡◌, ◌↔◌, refl, sym, ◌∙◌,
  ap, true, List, [], ◌∷◌, ◌++◌, arith, ltb, length, take, length-take, append-nil, append_assoc,
  if◌then◌else◌,
}
use ungula_lib_net.Strings.{c_string}
use ungula_lib_net.Strings.Laws.{Occurs, has_substring-Occurs}
use ungula_lib_net.Http.Client.{
  HttpResult, body_contains, empty_result, Exchange, on_data, on_data_all, http_result,
}

abbrev pub concat : List (List ℕ) → List ℕ
concat [] = []
concat (x ∷ xs) = x ++ concat xs

take_nil : (n : ℕ) → take {A = ℕ} n [] ≡ []
take_nil zero = refl
take_nil (suc n) = refl

-- A prefix of a concatenation, taken piece by piece.
take-append : (n : ℕ) (xs ys : List ℕ) → take n (xs ++ ys) ≡ take n xs ++ take (n - length xs) ys
take-append n [] ys = let same : n - 0 ≡ n = omega arith in rw (take_nil n, same) refl
take-append zero (x ∷ xs) ys =
    let none_left : 0 - suc (length xs) ≡ 0 = omega arith in rw none_left refl
take-append (suc n) (x ∷ xs) ys =
    let less : suc n - suc (length xs) ≡ n - length xs = omega arith in
    rw less (ap (λ zs. x ∷ zs) (take-append n xs ys))

-- The space that is left for the body.
abbrev space : HttpResult → ℕ
space r = 1023 - length r.body

abbrev Copied : List ℕ → HttpResult → HttpResult → Type 0
Copied bytes r r' = r' ≡ record r { body = r.body ++ take (space r) bytes }

on_data-Copied : (piece : List ℕ) (r : HttpResult) → Copied piece r (on_data piece r)
unfolding on_data
on_data-Copied piece r = elim (Bool-cases (ltb 0 (1024 - length r.body - 1))) [
  | inl some_space ↦
      let same : 1024 - length r.body - 1 ≡ space r = omega arith in
      rw some_space (ap (λ n. record r { body = r.body ++ take n piece }) same)
  | inr no_space ↦
      let none_left : space r ≡ 0 = ground arith in
      rw (no_space, none_left) (ap (λ b. record r { body = b }) (sym (append-nil r.body)))
]

on_data_all-Copied :
    (pieces : List (List ℕ)) (r : HttpResult) → Copied (concat pieces) r (on_data_all pieces r)
unfolding on_data_all
on_data_all-Copied [] r =
    rw (take_nil (space r)) (ap (λ b. record r { body = b }) (sym (append-nil r.body)))
on_data_all-Copied (piece ∷ pieces) r =
    let first = r.body ++ take (space r) piece in
    let left : 1023 - length first ≡ space r - length piece =
      omega (arith, length-append r.body (take (space r) piece), length-take (space r) piece) in
    ap (on_data_all pieces) (on_data-Copied piece r)
    ∙ on_data_all-Copied pieces (record r { body = first })
    ∙ ap (λ b. record r { body = b })
        (rw left (
            append_assoc r.body (take (space r) piece)
              (take (space r - length piece) (concat pieces)))
          ∙ ap (λ b. r.body ++ b) (sym (take-append (space r) piece (concat pieces))))

contains_exactly :
    (needle : List ℕ) (r : HttpResult)
    → (body_contains needle r ≡ true)
      ↔ ((0 < length r.body) × Occurs (c_string needle) (c_string r.body))
unfolding body_contains
contains_exactly needle r =
    let (found, occurs) = has_substring-Occurs (c_string r.body) (c_string needle) in
    (λ h. (ground arith, found (ground arith)), λ (room, o). ground (arith, occurs o))

-- The result of a request holds the first 1023 bytes of the response body, in however many pieces
-- they came, and none if no client could be created. It is a success exactly if the client was
-- created, the transfer succeeded and the status is one of 200 to 299; the status is reported
-- exactly if the transfer succeeded, and is 0 otherwise. A text is contained in the result
-- exactly if the body is not empty and the text occurs before the first zero of it.
pub result_of_exchange :
    (e : Exchange) (needle : List ℕ)
    → let r = http_result e in
      (r.body ≡ (if e.created then take 1023 (concat e.pieces) else []))
      × (length r.body ≤ 1023)
      × ((r.success ≡ true)
          ↔ ((e.created ≡ true) × (e.performed ≡ true) × (200 ≤ e.status) × (e.status < 300)))
      × (r.status_code ≡ (if e.created && e.performed then e.status else 0))
      × ((body_contains needle r ≡ true)
          ↔ ((0 < length r.body) × Occurs (c_string needle) (c_string r.body)))
unfolding http_result
result_of_exchange e needle =
    let copied = on_data_all-Copied e.pieces empty_result in
    let len = length-take 1023 (concat e.pieces) in
    (
      ground (arith, copied),
      ground (arith, copied, len),
      ground (arith, copied),
      ground (arith, copied),
      contains_exactly needle (http_result e),
    )
