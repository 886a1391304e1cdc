-- ===== src/MockMalloc/Tests.antt =====
-- The buffer with small requests.
use cpp_programming.Base.{ℕ, ◌<◌, ◌≡◌, refl, true, false, [], ◌∷◌, arith, undefined}
use cpp_programming.Base.Actions.{raises}
use cpp_programming.MockMalloc.{Memory, fresh, real, temp_malloc, serve, Lookup, set_malloc, malloc}
use cpp_programming.MockMalloc.Chunks.{Packed, serve-Packed, malloc-late}

abbrev asks_late : Lookup
asks_late = record { early = 32 ∷ []; late = 32 ∷ []; found = true }

-- The buffer with so many bytes taken.
abbrev taken : ℕ → ℕ → Memory
taken n c = record {
  tmppos = n;
  tmpallocs = c;
  initializing = true;
  has_malloc = false;
  has_others = false;
}

serve-Packed_example : Packed 8 ((8, 32) ∷ (40, 24) ∷ []) 64 × (64 < 1024)
unfolding serve temp_malloc
serve-Packed_example =
    serve-Packed (32 ∷ 24 ∷ []) (taken 8 1) (taken 64 3) ((8, 32) ∷ (40, 24) ∷ []) (omega arith)
      (omega arith, (omega arith, tt)) refl

malloc-late_example :
    malloc asks_late (real 5) 16 fresh ≡ raises undefined (set_malloc (taken 32 1))
unfolding serve temp_malloc fresh
malloc-late_example = malloc-late asks_late (real 5) 16 32 [] ((0, 32) ∷ []) (taken 32 1) refl refl
