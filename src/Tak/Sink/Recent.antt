-- ===== src/Tak/Sink/Recent.antt =====
-- The queue holds the newest events.
use meshcore_rpc_services.Prelude.{
  ℕ, zero, suc, ◌+◌, ◌-◌, ◌≤◌, ◌<◌, ◌≡◌, sym, ap, ◌∙◌, List, [], ◌∷◌, ◌++◌, true, false, length,
  drop, ltb, arith, length-append, ltb→lt, Bool-cases, inl, inr,
}
use native.Mathlib.Nat.{suc-add, zero-add}
use mathlib.Core.List.{append_assoc, append-nil}
use meshcore_rpc_services.Tak.Sink.{send, send_all}

-- The last `n` elements.
abbrev pub keep_last : {A : Type 0} → ℕ → List A → List A
keep_last n xs = drop (length xs - n) xs

module _ {A : Type 0} where
  drop_all : (k : ℕ) (xs : List A) → k ≡ 0 → drop k xs ≡ xs
  drop_all k xs e = rw e

  length-drop : (k : ℕ) (xs : List A) → k ≤ length xs → length (drop k xs) + k ≡ length xs
  length-drop zero xs h = omega arith
  length-drop (suc k) [] h = absurd (omega arith)
  length-drop (suc k) (x ∷ xs) h = omega (arith, length-drop k xs (omega arith))

  drop-drop-append :
      (j k : ℕ) (xs ys : List A)
      → k ≤ length xs
      → drop j (drop k xs ++ ys) ≡ drop (k + j) (xs ++ ys)
  drop-drop-append j zero xs ys h = rw zero-add
  drop-drop-append j (suc k) [] ys h = absurd (omega arith)
  drop-drop-append j (suc k) (x ∷ xs) ys h = rw suc-add (drop-drop-append j k xs ys (omega arith))

  -- Keeping the last elements twice, with more behind, is keeping them once.
  keep_last-keep_last :
      (n : ℕ) (xs ys : List A) → keep_last n (keep_last n xs ++ ys) ≡ keep_last n (xs ++ ys)
  keep_last-keep_last n xs ys =
      drop-drop-append _ (length xs - n) xs ys (omega arith)
      ∙ ap (λ (k : ℕ). drop k (xs ++ ys))
          (omega (
            arith,
            length-append {0} (drop (length xs - n) xs) ys,
            length-append {0} xs ys,
            length-drop (length xs - n) xs (omega arith),
          ))

ltb-le : (a b : ℕ) → ltb a b ≡ false → b ≤ a
ltb-le a b h = ground arith

module _ {A : Type 0} (cap : ℕ) (room : 0 < cap) where
  one_too_many :
      (x : A) (q : List A) → length q ≡ cap → keep_last cap (q ++ x ∷ []) ≡ drop 1 (q ++ x ∷ [])
  one_too_many x q h =
      let e : length (q ++ x ∷ []) - cap ≡ 1 = omega (arith, length-append {0} q (x ∷ [])) in
      ap (λ (k : ℕ). drop k (q ++ x ∷ [])) e

  send_full : (x : A) (q : List A) → length q ≡ cap → send cap x q ≡ drop 1 (q ++ x ∷ [])
  unfolding send
  send_full x [] h = absurd (omega arith)
  send_full x (y ∷ q) h =
      let full : ltb (length (y ∷ q)) cap ≡ false = ground arith in
      let free : ltb (length q) cap ≡ true = ground arith in ground (arith, full, free)

  -- One event more, and the oldest one gives way where there is no room.
  pub send-keep_last :
      (x : A) (q : List A) → length q ≤ cap → send cap x q ≡ keep_last cap (q ++ x ∷ [])
  unfolding send
  send-keep_last x q h = elim (Bool-cases (ltb (length q) cap)) [
    | inl free ↦
        rw free (sym (drop_all _ _ (omega (arith, length-append {0} q (x ∷ []), ltb→lt _ _ free))))
    | inr full ↦
        let e : length q ≡ cap = omega (arith, ltb-le _ _ full) in
        send_full x q e ∙ sym (one_too_many x q e)
  ]

  length-keep_last : (xs : List A) → length (keep_last cap xs) ≤ cap
  length-keep_last xs = omega (arith, length-drop (length xs - cap) xs (omega arith))

  -- What is sent to a queue within its bound, which is at least one, leaves it within the bound,
  -- with the newest of all events, the queued and the sent ones, in their order.
  pub send_all-keep_last :
      (xs q : List A)
      → length q ≤ cap
      → (send_all cap xs q ≡ keep_last cap (q ++ xs)) × (length (send_all cap xs q) ≤ cap)
  unfolding send_all
  send_all-keep_last [] q h = (rw append-nil (sym (drop_all (length q - cap) q (omega arith))), h)
  send_all-keep_last (x ∷ xs) q h =
      let step = send-keep_last x q h in
      let small : length (send cap x q) ≤ cap = rw step (length-keep_last (q ++ x ∷ [])) in
      let (rest, bound) = send_all-keep_last xs (send cap x q) small in
      (
        rest
            ∙ ap (λ r. keep_last cap (r ++ xs)) step
            ∙ keep_last-keep_last cap (q ++ x ∷ []) xs
            ∙ ap (keep_last cap) (append_assoc q (x ∷ []) xs),
        bound,
      )
