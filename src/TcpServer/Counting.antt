-- ===== src/TcpServer/Counting.antt =====
-- Counting and checking the sessions of a list when one of them changes.
use libsg.Common.{
  ℕ, zero, suc, ◌+◌, ◌≤◌, ◌≡◌, refl, subst, Bool, List, [], ◌∷◌, ◌++◌, map, some, get_elem?, arith,
  if◌then◌else◌,
}
use libsg.TcpServer.{Session, change}
use libsg.TcpServer.System.{count}

abbrev pub All : (Session → Type 0) → List Session → Type 0
All P [] = Unit
All P (x ∷ xs) = P x × All P xs

abbrev pub one : Bool → ℕ
one b = if b then 1 else 0

pub count-append :
    (p : Session → Bool) (xs ys : List Session) → count p (xs ++ ys) ≡ count p xs + count p ys
count-append p [] ys = omega arith
count-append p (x ∷ xs) ys = omega (arith, count-append p xs ys)

pub count-change :
    (p : Session → Bool) (f : Session → Session) (id : ℕ) (x : Session) (xs : List Session)
    → get_elem? xs id ≡ some x
    → count p (change id f xs) + one (p x) ≡ count p xs + one (p (f x))
unfolding change
count-change p f id x [] h = absurd (ground (arith, h))
count-change p f zero x (y ∷ xs) h = ground (arith, h)
count-change p f (suc id) x (y ∷ xs) h =
    let k : get_elem? xs id ≡ some x = ground (arith, h) in
    omega (arith, count-change p f id x xs k)

pub count-map :
    (p : Session → Bool) (f : Session → Session) (xs : List Session)
    → ((x : Session) → p (f x) ≡ p x)
    → count p (map f xs) ≡ count p xs
count-map p f [] h = refl
count-map p f (x ∷ xs) h = ground (arith, h x, count-map p f xs h)

pub All-append :
    (P : Session → Type 0) (xs ys : List Session) → All P xs → All P ys → All P (xs ++ ys)
All-append P [] ys h k = k
All-append P (x ∷ xs) ys h k = (h.0, All-append P xs ys h.1 k)

pub All-get :
    (P : Session → Type 0) (id : ℕ) (x : Session) (xs : List Session)
    → get_elem? xs id ≡ some x
    → All P xs
    → P x
All-get P id x [] e h = absurd (ground (arith, e))
All-get P zero x (y ∷ xs) e h = let same : y ≡ x = ground (arith, e) in subst P same h.0
All-get P (suc id) x (y ∷ xs) e h =
    let k : get_elem? xs id ≡ some x = ground (arith, e) in All-get P id x xs k h.1

pub All-change :
    (P : Session → Type 0) (f : Session → Session) (id : ℕ) (x : Session) (xs : List Session)
    → get_elem? xs id ≡ some x
    → P (f x)
    → All P xs
    → All P (change id f xs)
unfolding change
All-change P f id x [] e q h = absurd (ground (arith, e))
All-change P f zero x (y ∷ xs) e q h =
    let same : x ≡ y = ground (arith, e) in (subst (λ z. P (f z)) same q, h.1)
All-change P f (suc id) x (y ∷ xs) e q h =
    let k : get_elem? xs id ≡ some x = ground (arith, e) in (h.0, All-change P f id x xs k q h.1)

pub All-map :
    (P Q : Session → Type 0) (f : Session → Session) (xs : List Session)
    → ((x : Session) → P x → Q (f x))
    → All P xs
    → All Q (map f xs)
All-map P Q f [] g h = tt
All-map P Q f (x ∷ xs) g h = (g x h.0, All-map P Q f xs g h.1)

pub All-imp :
    (P Q : Session → Type 0) (xs : List Session) → ((x : Session) → P x → Q x) → All P xs → All Q xs
All-imp P Q [] g h = tt
All-imp P Q (x ∷ xs) g h = (g x h.0, All-imp P Q xs g h.1)

pub count-get :
    (p : Session → Bool) (id : ℕ) (x : Session) (xs : List Session)
    → get_elem? xs id ≡ some x
    → one (p x) ≤ count p xs
count-get p id x [] h = absurd (ground (arith, h))
count-get p zero x (y ∷ xs) h = ground (arith, h)
count-get p (suc id) x (y ∷ xs) h =
    let k : get_elem? xs id ≡ some x = ground (arith, h) in omega (arith, count-get p id x xs k)
