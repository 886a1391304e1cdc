-- ===== src/MockMalloc/Chunks.antt =====
-- The places in the buffer.
use cpp_programming.Base.{
  ℕ, ◌+◌, ◌-◌, ◌*◌, ◌%◌, ◌^◌, ◌≤◌, ◌<◌, ◌≡◌, refl, sym, ap, ◌∙◌, subst, true, false, List, [], ◌∷◌,
  arith, All, undefined, out_of_fuel,
}
use cpp_programming.Base.Actions.{Reply, gives, raises, give, raise, and_then}
use cpp_programming.MockMalloc.{
  buffer_size, Memory, Act, fresh, Pointer, null, temp, temp_malloc, serve, Lookup, set_malloc,
  set_others, set_initializing, malloc_with, calloc_with, requests, init, malloc, free,
}

-- Each place begins where the one before it ends, from `p` on, and the last ends at `q`.
abbrev pub Packed : ℕ → List (ℕ × ℕ) → ℕ → Type 0
Packed p [] q = p ≡ q
Packed p ((a, n) ∷ ps) q = (p ≡ a) × Packed (a + n) ps q

temp_malloc-gives :
    (n p : ℕ) (m m' : Memory)
    → m.tmppos + n < 2 ^ 64
    → temp_malloc n m ≡ gives p m'
    → (p ≡ m.tmppos) × (m'.tmppos ≡ m.tmppos + n) × (m'.tmppos < buffer_size)
unfolding temp_malloc
temp_malloc-gives n p m m' h e = ground arith

bind-gives {ℓ κ} :
    {A : Type ℓ} {B : Type κ} (r : Reply Memory A) (f : A → Act B) (b : B) (m : Memory)
    → and_then r f ≡ gives b m
    → (a : A) × (k : Memory) × (r ≡ gives a k) × (f a k ≡ gives b m)
bind-gives (gives a k) f b m e = (a, k, refl, e)
bind-gives (raises x k) f b m e = cc

serve-cons :
    (n : ℕ) (ns : List ℕ) (m m' : Memory) (ps : List (ℕ × ℕ))
    → serve (n ∷ ns) m ≡ gives ps m'
    → (p : ℕ) × (k : Memory) × (qs : List (ℕ × ℕ)) × (temp_malloc n m ≡ gives p k)
      × (serve ns k ≡ gives qs m')
      × (ps ≡ (p, n) ∷ qs)
unfolding serve
serve-cons n ns m m' ps e =
    let (p, k, x, y) = bind-gives (temp_malloc n m) _ ps m' e in
    let (qs, l, z, w) = bind-gives (serve ns k) _ ps m' y in
    let u : l ≡ m' = cc in (p, k, qs, x, z ∙ ap (gives qs) u, cc)

-- Requests of less than 2^63 bytes each, if they are all served, get places in the buffer that lie
-- one behind the other, without gap or overlap, from the position before them to the one after.
pub serve-Packed :
    (ns : List ℕ) (m m' : Memory) (ps : List (ℕ × ℕ))
    → m.tmppos < buffer_size
    → All (λ n. n < 2 ^ 63) ns
    → serve ns m ≡ gives ps m'
    → Packed m.tmppos ps m'.tmppos × (m'.tmppos < buffer_size)
unfolding serve
serve-Packed [] m m' ps h a e = ground arith
serve-Packed (n ∷ ns) m m' ps h a e =
    let (p, k, qs, x, y, z) = serve-cons n ns m m' ps e in
    let (u, v, w) = temp_malloc-gives n p m k (omega (arith, a.0)) x in
    let (r, t) = serve-Packed ns k m' qs w a.1 y in
    rw z ((sym u, subst (λ b. Packed b qs m'.tmppos) (v ∙ ap (λ b. b + n) (sym u)) r), t)

Packed-bound : (ps : List (ℕ × ℕ)) (p q : ℕ) → Packed p ps q → p ≤ q
Packed-bound [] p q h = omega (arith, h)
Packed-bound ((a, n) ∷ ps) p q h = omega (arith, h.0, Packed-bound ps (a + n) q h.1)

free-place : (p : ℕ) (m : Memory) → p ≤ m.tmppos → free (temp p) m ≡ gives false m
unfolding free
free-place p m h = ground arith

-- No place of a row of places that ends at the position of the buffer is handed to the real `free`.
pub free-Packed :
    (ps : List (ℕ × ℕ)) (p : ℕ) (m : Memory)
    → Packed p ps m.tmppos
    → All (λ c. free (temp c.0) m ≡ gives false m) ps
free-Packed [] p m h = tt
free-Packed ((a, n) ∷ ps) p m h =
    let b : a ≤ m.tmppos = omega (arith, Packed-bound ps (a + n) m.tmppos h.1) in
    (free-place a m b, free-Packed ps (a + n) m h.1)

-- A size that makes the addition wrap around is served: the place that it gets lies in the buffer,
-- and the next request is served from a place before it.
pub temp_malloc-wraps :
    (n : ℕ) (m : Memory)
    → m.tmppos < buffer_size
    → n < 2 ^ 64
    → 2 ^ 64 ≤ m.tmppos + n
    → (m' : Memory) × (temp_malloc n m ≡ gives m.tmppos m') × (m'.tmppos < m.tmppos)
unfolding temp_malloc
temp_malloc-wraps n m h b w =
    let end = (m.tmppos + n) % 2 ^ 64 in
    let q : end ≡ m.tmppos + n - 2 ^ 64 = omega arith in
    (
      record m { tmppos = end; tmpallocs = (m.tmpallocs + 1) % 2 ^ 64 },
      ground (arith, q),
      omega (arith, q),
    )

-- The flags while `init` looks up the first function.
abbrev Begun : Memory → Type 0
Begun m = (m.has_malloc ≡ false) × (m.initializing ≡ true) × (m.has_others ≡ false)

temp_malloc-wrapped : (n : ℕ) (m : Memory) → temp_malloc (1 * n % 2 ^ 64) m ≡ temp_malloc n m
unfolding temp_malloc
temp_malloc-wrapped n m =
    let q : (m.tmppos + 1 * n % 2 ^ 64) % 2 ^ 64 ≡ (m.tmppos + n) % 2 ^ 64 = omega arith in
    rw q refl

temp_malloc-Begun : (n p : ℕ) (m k : Memory) → Begun m → temp_malloc n m ≡ gives p k → Begun k
unfolding temp_malloc
temp_malloc-Begun n p m k b e = ground arith

calloc_with-Begun :
    (n : ℕ) (m : Memory)
    → Begun m
    → calloc_with (raise out_of_fuel) null 1 n m
      ≡ and_then (temp_malloc (1 * n % 2 ^ 64) m) (λ p. give (temp p))
unfolding calloc_with malloc_with
calloc_with-Begun n m b = simp (b.0, b.1)

-- The size goes through a multiplication of 64 bits.
calloc_with-temp_malloc :
    (n p : ℕ) (m k : Memory)
    → Begun m
    → temp_malloc n m ≡ gives p k
    → calloc_with (raise out_of_fuel) null 1 n m ≡ gives (temp p) k
unfolding calloc_with malloc_with
calloc_with-temp_malloc n p m k b e =
    let q : temp_malloc (1 * n % 2 ^ 64) m ≡ gives p k = temp_malloc-wrapped n m ∙ e in
    calloc_with-Begun n m b ∙ ap (λ r. and_then r (λ p'. give (temp p'))) q

requests-serve :
    (ns : List ℕ) (m k : Memory) (ps : List (ℕ × ℕ))
    → Begun m
    → serve ns m ≡ gives ps k
    → (requests ns m ≡ gives tt k) × Begun k
unfolding requests serve
requests-serve [] m k ps b e = let q : m ≡ k = cc in (ap (gives tt) q, subst Begun q b)
requests-serve (n ∷ ns) m k ps b e =
    let (p, l, qs, x, y, z) = serve-cons n ns m k ps e in
    let (u, v) = requests-serve ns l k qs (temp_malloc-Begun n p m l b x) y in
    (rw (calloc_with-temp_malloc n p m l b x, u) refl, v)

-- The first call of `malloc` sets the functions up and returns what the real one does, if `dlsym`
-- finds them, and asks for memory while it looks for the first one only, and gets it.
pub malloc-first :
    (d : Lookup) (answer : Pointer) (size : ℕ) (ps : List (ℕ × ℕ)) (m : Memory)
    → serve d.early (set_initializing true fresh) ≡ gives ps m
    → d.late ≡ []
    → d.found ≡ true
    → malloc d answer size fresh ≡ gives answer (set_initializing false (set_others (set_malloc m)))
unfolding malloc malloc_with init requests fresh
malloc-first d answer size ps m e l f =
    let (q, b) = requests-serve d.early (set_initializing true fresh) m ps (refl, refl, refl) e in
    rw (q, l, f) refl

-- If the buffer has room for what `dlsym` asks `calloc` for while it looks for the first function,
-- and `dlsym` calls `calloc` again while it looks for those behind it, that call comes to one of a
-- null pointer, and the first call of `malloc` with it.
pub malloc-late :
    (d : Lookup) (answer : Pointer) (size n : ℕ) (ns : List ℕ) (ps : List (ℕ × ℕ)) (m : Memory)
    → serve d.early (set_initializing true fresh) ≡ gives ps m
    → d.late ≡ n ∷ ns
    → malloc d answer size fresh ≡ raises undefined (set_malloc m)
unfolding malloc malloc_with init requests calloc_with fresh
malloc-late d answer size n ns ps m e l =
    let (q, b) = requests-serve d.early (set_initializing true fresh) m ps (refl, refl, refl) e in
    rw (q, l, b.2) refl
