-- ===== src/RollingBuffer/Rolling.antt =====
-- What the buffer promises: a window of bounded length over everything ever added. Every sequence
-- of calls on a `rolling_contiguous_buffer` behaves as the same calls on the window.
use libsg.Common.{
  ℕ, ◌+◌, ◌*◌, ◌^◌, ◌<◌, ◌≡◌, refl, ◌∙◌, ap, Bool, List, [], ◌∷◌, ◌++◌, last, flatten, append-nil,
  append_assoc, last-append, sym, drop_nil, ◌-◌, arith,
}
use libsg.RollingBuffer.{Buffer, make, contents, clear, push_back, append, resize}
use libsg.RollingBuffer.Storage.{Growth, empty}
use libsg.RollingBuffer.Invariant.{IsValid}
use libsg.RollingBuffer.Operations.{push_back-Adds, append-Adds, resize-contents}

-- The calls that change a buffer.
pub data Op (A : Type 0) : Type 0 where
  pushes : A → Op A
  appends : List A → Op A
  resizes : ℕ → ℕ → Op A
  clears : Op A

pub record Rolling (A : Type 0) : Type 0 where
  pub limit : ℕ
  pub held : List A

-- A resize must not ask for more than a `size_t` can count.
abbrev pub Countable : {A : Type 0} → Op A → Type 0
Countable (pushes x) = Unit {0}
Countable (appends xs) = Unit {0}
Countable (resizes n r) = 2 * n + r + 2 < 2 ^ 64
Countable clears = Unit {0}

abbrev pub AllCountable : {A : Type 0} → List (Op A) → Type 0
AllCountable [] = Unit {0}
AllCountable (op ∷ ops) = Countable op × AllCountable ops

module _ {A : Type 0} where
  unfoldable pub roll : Rolling A → Op A → Rolling A
  roll w (pushes x) = record w { held = last w.limit (w.held ++ x ∷ []) }
  roll w (appends xs) = record w { held = last w.limit (w.held ++ xs) }
  roll w (resizes n r) = record { limit = n; held = last n w.held }
  roll w clears = record w { held = [] }

  unfoldable pub roll_all : Rolling A → List (Op A) → Rolling A
  roll_all w [] = w
  roll_all w (op ∷ ops) = roll_all (roll w op) ops

  abbrev pub view : Buffer A → Rolling A
  view b = record { limit = b.cb_size; held = contents b }

  pub make-IsValid : (n r : ℕ) → 2 * n + r + 2 < 2 ^ 64 → IsValid (make {A = A} n r)
  unfolding make empty
  make-IsValid n r h = omega arith

  -- All that was appended, call by call.
  abbrev pub append_all : List (List A) → List (Op A)
  append_all [] = []
  append_all (xs ∷ xss) = appends xs ∷ append_all xss

  module _ (g : Growth) (trivial : Bool) where
    unfoldable pub call : Buffer A → Op A → Buffer A
    call b (pushes x) = push_back g trivial x b
    call b (appends xs) = append g trivial xs b
    call b (resizes n r) = resize g n r b
    call b clears = clear b

    unfoldable pub calls : Buffer A → List (Op A) → Buffer A
    calls b [] = b
    calls b (op ∷ ops) = calls (call b op) ops

    rolling_eq : {v w : Rolling A} → v.limit ≡ w.limit → v.held ≡ w.held → v ≡ w
    rolling_eq p q = λ i. record { limit = p i; held = q i }

    clear-contents : {b : Buffer A} → IsValid b → IsValid (clear b) × (contents (clear b) ≡ [])
    unfolding clear contents empty
    clear-contents v = (omega (arith, v), refl)

    -- Every call keeps the invariant.
    pub call-IsValid : {b : Buffer A} (op : Op A) → Countable op → IsValid b → IsValid (call b op)
    unfolding call
    call-IsValid (pushes x) h v = (push_back-Adds g trivial v x).0
    call-IsValid (appends xs) h v = (append-Adds g trivial v xs).0
    call-IsValid (resizes n r) h v = (resize-contents g v n r h).0
    call-IsValid clears h v = (clear-contents v).0

    call-roll :
        {b : Buffer A} (op : Op A) → Countable op → IsValid b → view (call b op) ≡ roll (view b) op
    unfolding call roll clear
    call-roll (pushes x) h v = let a = push_back-Adds g trivial v x in rolling_eq a.1 a.3
    call-roll (appends xs) h v = let a = append-Adds g trivial v xs in rolling_eq a.1 a.3
    call-roll (resizes n r) h v = let a = resize-contents g v n r h in rolling_eq a.1 a.2
    call-roll clears h v = rolling_eq refl (clear-contents v).1

    -- From any valid buffer, every sequence of `push_back`, `append`, `resize` and `clear` (each
    -- resize small enough for a `size_t`) leaves a valid buffer that holds what the window of the
    -- same calls holds, with the same limit.
    pub calls-roll :
        (ops : List (Op A)) {b : Buffer A}
        → AllCountable ops
        → IsValid b
        → IsValid (calls b ops) × (view (calls b ops) ≡ roll_all (view b) ops)
    unfolding calls roll_all
    calls-roll [] h v = (v, refl)
    calls-roll (op ∷ ops) {b} h v =
        let (w, e) = calls-roll ops h.1 (call-IsValid op h.0 v) in
        (w, e ∙ ap (λ r. roll_all r ops) (call-roll op h.0 v))

    append_all-AllCountable : (xss : List (List A)) → AllCountable (append_all xss)
    append_all-AllCountable [] = tt
    append_all-AllCountable (xs ∷ xss) = (tt, append_all-AllCountable xss)

    roll_all-append_all :
        (n : ℕ) (xss : List (List A)) (pre : List A)
        → (roll_all (record { limit = n; held = last n pre }) (append_all xss)).held
          ≡ last n (pre ++ flatten xss)
    unfolding roll_all roll
    roll_all-append_all n [] pre = ap (last n) (sym (append-nil pre))
    roll_all-append_all n (xs ∷ xss) pre =
        ap (λ h. (roll_all (record { limit = n; held = h }) (append_all xss)).held)
          (last-append n pre xs)
        ∙ roll_all-append_all n xss (pre ++ xs)
        ∙ ap (last n) (append_assoc pre xs (flatten xss))

    -- A new buffer of size `n` to which any batches are appended holds the last `n` elements of
    -- their concatenation, however the batches divide it, whether or not elements are copied
    -- trivially, and whatever the reserve (size and reserve small enough for a `size_t`).
    pub appended_stream :
        (n r : ℕ) (xss : List (List A))
        → 2 * n + r + 2 < 2 ^ 64
        → contents (calls (make n r) (append_all xss)) ≡ last n (flatten xss)
    unfolding make empty contents
    appended_stream n r xss h =
        let all = calls-roll (append_all xss) (append_all-AllCountable xss) (make-IsValid n r h) in
        ap (λ w. w.held) all.1
        ∙ ap (λ k. (roll_all (record { limit = n; held = k }) (append_all xss)).held)
            (sym (drop_nil (0 - n)))
        ∙ roll_all-append_all n xss []
