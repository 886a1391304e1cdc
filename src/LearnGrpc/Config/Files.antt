-- ===== src/LearnGrpc/Config/Files.antt =====
-- What a configuration file with settings, comments and other lines sets.
use cpp_programming.Base.{
  ◌≡◌, refl, sym, ap, ◌∙◌, false, List, [], ◌∷◌, ◌++◌, map, append-nil, is_empty, All, Outcome,
  returned, threw, ◌>>=◌, after,
}
use cpp_programming.Text.{Text}
use cpp_programming.Text.Find.{Lacks}
use cpp_programming.SimpleHttp.Trim.{AllSpaces, IsTrimmed}
use cpp_programming.SimpleHttp.Config.{
  starts-append, ends-append, filled-append, Lacks-append, AllSpaces-Lacks,
}
use cpp_programming.LearnGrpc.Config.{
  Boost, starts_comment, load_trimmed, load_line, load_lines, load_config_file,
}

-- What boost says of its functions: `trim` takes the white space off both ends, and `split` gives
-- the two texts around a single equals sign, and a text without one as it is.
pub record Laws (b : Boost) : Type 0 where
  pub trim_spaces :
      (u t v : Text) → AllSpaces u → AllSpaces v → IsTrimmed t → b.trim (u ++ (t ++ v)) ≡ t
  pub split_one : (t : Text) → Lacks 61 t → b.split t ≡ t ∷ []
  pub split_two : (x y : Text) → Lacks 61 x → Lacks 61 y → b.split (x ++ 61 ∷ y) ≡ x ∷ y ∷ []

-- A line of a file, between white space. A setting has a name, the white space behind it, the
-- white space in front of the value, and the value.
pub data Entry : Type 0 where
  setting : Text → Text → Text → Text → Entry
  comment word : Text → Entry
  blank : Entry

abbrev pub content : Entry → Text
content (setting k x y v) = (k ++ x) ++ 61 ∷ (y ++ v)
content (comment t) = 35 ∷ t
content (word t) = t
content blank = []

-- The name and the value are not empty and have no white space at an end and no equals sign, and
-- the name is not that of a comment.
abbrev pub IsSetting : Text → Text → Type 0
IsSetting k v =
    IsTrimmed k
    × IsTrimmed v
    × Lacks 61 k
    × Lacks 61 v
    × (is_empty k ≡ false)
    × (is_empty v ≡ false)
    × (starts_comment k ≡ false)

abbrev pub IsEntry : Entry → Type 0
IsEntry (setting k x y v) = (AllSpaces x × AllSpaces y) × IsSetting k v
IsEntry (comment t) = IsTrimmed (35 ∷ t)
IsEntry (word t) = IsTrimmed t × Lacks 61 t × (is_empty t ≡ false) × (starts_comment t ≡ false)
IsEntry blank = Unit

pub record Line : Type 0 where
  pub before : Text
  pub entry : Entry
  pub behind : Text

abbrev pub text_of : Line → Text
text_of l = l.before ++ (content l.entry ++ l.behind)

abbrev pub IsLine : Line → Type 0
IsLine l = AllSpaces l.before × AllSpaces l.behind × IsEntry l.entry

content-IsTrimmed : (e : Entry) → IsEntry e → IsTrimmed (content e)
content-IsTrimmed (setting k x y v) (_, h) = (
  starts-append (k ++ x) (61 ∷ (y ++ v)) (filled-append k x h.4) (starts-append k x h.4 (h.0).0),
  ends-append (k ++ x) (61 ∷ (y ++ v)) refl (ends-append (61 ∷ y) v h.5 (h.1).1),
)
content-IsTrimmed (comment t) h = h
content-IsTrimmed (word t) h = h.0
content-IsTrimmed blank h = (tt, tt)

starts_comment-append :
    (s t : Text) → is_empty s ≡ false → starts_comment (s ++ t) ≡ starts_comment s
starts_comment-append [] t h = absurd cc
starts_comment-append (c ∷ s) t h = refl

module _ {ℓ} {C : Type ℓ} (b : Boost) (w : Laws b) (set_config : Text → Text → C → Outcome C) where
  -- What an entry asks for, and what those of some lines do, up to the first one that `setConfig`
  -- throws for.
  abbrev pub set_entry : Entry → C → Outcome C
  set_entry (setting k x y v) c = set_config k v c
  set_entry (comment t) c = returned c
  set_entry (word t) c = returned c
  set_entry blank c = returned c

  unfoldable pub set_all : List Line → C → Outcome C
  set_all [] c = returned c
  set_all (l ∷ ls) c = set_entry l.entry c >>= set_all ls

  load_trimmed-content :
      (e : Entry) (c : C) → IsEntry e → load_trimmed b set_config (content e) c ≡ set_entry e c
  load_trimmed-content (setting k x y v) c ((hx, hy), h) =
      let line = (k ++ x) ++ 61 ∷ (y ++ v) in
      let name_clean = Lacks-append 61 k x h.2 (AllSpaces-Lacks x hx) in
      let value_clean = Lacks-append 61 y v (AllSpaces-Lacks y hy) h.3 in
      let about_value : b.trim (y ++ v) ≡ v =
        ap (λ t. b.trim (y ++ t)) (sym (append-nil v)) ∙ w.trim_spaces y v [] hy tt h.1 in
      rw
        (
          starts_comment-append (k ++ x) (61 ∷ (y ++ v)) (filled-append k x h.4),
          starts_comment-append k x h.4,
          h.6,
          filled-append (k ++ x) (61 ∷ (y ++ v)) (filled-append k x h.4),
          w.split_two (k ++ x) (y ++ v) name_clean value_clean,
        )
        (ap (λ t. set_config t (b.trim (y ++ v)) c) (w.trim_spaces [] k x tt hx h.0)
          ∙ ap (λ t. set_config k t c) about_value)
  load_trimmed-content (comment t) c h = refl
  load_trimmed-content (word t) c h = rw (h.3, h.2, w.split_one t h.1) refl
  load_trimmed-content blank c h = refl

  load_line-text_of :
      (l : Line) (c : C) → IsLine l → load_line b set_config (text_of l) c ≡ set_entry l.entry c
  unfolding load_line
  load_line-text_of l c h =
      ap (λ t. load_trimmed b set_config t c)
        (w.trim_spaces l.before (content l.entry) l.behind h.0 h.1 (content-IsTrimmed l.entry h.2))
      ∙ load_trimmed-content l.entry c h.2

  outcome_step :
      (o : Outcome C) (f g : C → Outcome C) → ((c : C) → f c ≡ g c) → (o >>= f) ≡ (o >>= g)
  outcome_step (returned c) f g h = h c
  outcome_step (threw e c) f g h = refl

  load_lines-text_of :
      (ls : List Line) (c : C)
      → All IsLine ls
      → load_lines b set_config (map text_of ls) c ≡ set_all ls c
  unfolding load_lines set_all
  load_lines-text_of [] c h = refl
  load_lines-text_of (l ∷ ls) c h =
      ap (λ o. o >>= load_lines b set_config (map text_of ls)) (load_line-text_of l c h.0)
      ∙ outcome_step (set_entry l.entry c) (load_lines b set_config (map text_of ls)) (set_all ls)
          (λ d. load_lines-text_of ls d h.1)

  -- From a file with settings, comments, words and blank lines, whatever white space stands about
  -- the lines and about the names and the values of the settings, loadConfigFile makes the configuration that `setConfig` makes of its settings in their
  -- order, the last one of a name last; the first for which it throws is the last one read.
  pub load_config_file-set_all :
      (ls : List Line) (c : C)
      → All IsLine ls
      → load_config_file b set_config (map text_of ls) c ≡ after (set_all ls c)
  unfolding load_config_file
  load_config_file-set_all ls c h = ap after (load_lines-text_of ls c h)
