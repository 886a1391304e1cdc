-- ===== src/SimpleHttp/Config.antt =====
-- simple_http/config/src/config.cpp: the class Config, read from the lines of a file.
use mathlib.Core.List.{reverse, reverse-append, reverse-cons}
use cpp_programming.Base.{
  ℕ, ◌+◌, ◌^◌, ◌<◌, ◌≡◌, refl, sym, ap, ◌∙◌, false, none, some, List, [], ◌∷◌, ◌++◌, append-nil,
  arith, ◌==◌, if◌then◌else◌, length, is_empty, take, drop, Outcome, returned, threw, ◌>>=◌, after,
  ok, err,
}
use cpp_programming.Text.{Text, text_eq, find, to_unsigned, stoi}
use cpp_programming.Text.Find.{Lacks, find-Lacks, take-length, drop-length, drop-drop}
use cpp_programming.SimpleHttp.Trim.{trim, trim-spaces, AllSpaces, StartsClean, IsTrimmed}

-- "=", "port", "log_level".
abbrev equals_sign : Text
equals_sign = 61 ∷ []

abbrev pub port_name : Text
port_name = 112 ∷ 111 ∷ 114 ∷ 116 ∷ []

abbrev pub log_level_name : Text
log_level_name = 108 ∷ 111 ∷ 103 ∷ 95 ∷ 108 ∷ 101 ∷ 118 ∷ 101 ∷ 108 ∷ []

pub record Config : Type 0 where
  pub log_level : Text
  pub port : ℕ  -- uint16_t
  pub ep_event_count : ℕ

-- The object before the file is read.
unfoldable pub defaults : Config
defaults = record { log_level = []; port = 5666; ep_event_count = 10 }

-- What `ParseLine` does with a name and a value.
unfoldable pub set_value : Text → Text → Config → Outcome Config
set_value name value c =
    if text_eq name port_name
    then elim (stoi value) [
      | ok z ↦ returned (record c { port = to_unsigned 16 z })
      | err e ↦ threw e c
    ]
    else if text_eq name log_level_name
    then returned (record c { log_level = value })
    else returned c

abbrev parse_trimmed : Text → Config → Outcome Config
parse_trimmed s c = elim (find equals_sign s) [
  | none ↦ returned c
  | some p ↦ set_value (trim (take p s)) (trim (drop (p + 1) s)) c
]

unfoldable pub parse_line : Text → Config → Outcome Config
parse_line s c = parse_trimmed (trim s) c

-- The lines that `getline` yields until the end of the file, the last one perhaps empty.
unfoldable pub split_lines : Text → Text → List Text
split_lines line [] = line ∷ []
split_lines line (c ∷ s) =
    let rest = split_lines (if c == 10 then [] else line ++ c ∷ []) s in
    if c == 10 then line ∷ rest else rest

-- The loop of the constructor over the lines.
unfoldable pub parse_lines : List Text → Config → Outcome Config
parse_lines [] c = returned c
parse_lines (s ∷ ss) c = parse_line s c >>= parse_lines ss

-- The constructor, for a file that can be opened and holds this text.
unfoldable pub load : Text → Outcome Config
unfolding split_lines parse_lines parse_line defaults
load file = parse_lines (split_lines [] file) defaults

-- The port is a 16 bit number, and the event count is that of the constructor.
abbrev pub IsValid : Config → Type 0
IsValid c = (c.port < 2 ^ 16) × (c.ep_event_count ≡ 10)

parse_line-IsValid : (s : Text) (c : Config) → IsValid c → IsValid (after (parse_line s c))
unfolding parse_line set_value to_unsigned
parse_line-IsValid s c h = ground arith

bind-IsValid :
    (o : Outcome Config) (f : Config → Outcome Config)
    → IsValid (after o)
    → ((c : Config) → IsValid c → IsValid (after (f c)))
    → IsValid (after (o >>= f))
bind-IsValid (returned c) f h k = k c h
bind-IsValid (threw e c) f h k = h

parse_lines-IsValid : (ss : List Text) (c : Config) → IsValid c → IsValid (after (parse_lines ss c))
unfolding parse_lines
parse_lines-IsValid [] c h = h
parse_lines-IsValid (s ∷ ss) c h =
    bind-IsValid (parse_line s c) (parse_lines ss) (parse_line-IsValid s c h)
      (parse_lines-IsValid ss)

-- Whatever the file holds, and whether or not a line makes the constructor throw, the port fits 16
-- bits and the event count is the default.
pub load-IsValid : (file : Text) → IsValid (after (load file))
unfolding load
load-IsValid file = parse_lines-IsValid (split_lines [] file) defaults (omega arith)

-- A name and a value around the first "=", with white space about each.
abbrev pub IsSetting : Text → Text → Type 0
IsSetting name value =
    Lacks 61 name
    × (is_empty name ≡ false)
    × IsTrimmed name
    × (is_empty value ≡ false)
    × IsTrimmed value

append-filled : (s : Text) (c : ℕ) → is_empty (s ++ c ∷ []) ≡ false
append-filled [] c = refl
append-filled (d ∷ s) c = refl

pub starts-append : (s t : Text) → is_empty s ≡ false → StartsClean s → StartsClean (s ++ t)
starts-append [] t h k = cc
starts-append (c ∷ s) t h k = k

reverse-filled : (s : Text) → is_empty s ≡ false → is_empty (reverse s) ≡ false
reverse-filled [] h = cc
reverse-filled (c ∷ s) h = rw (reverse-cons c s) (append-filled (reverse s) c)

pub filled-append : (s t : Text) → is_empty s ≡ false → is_empty (s ++ t) ≡ false
filled-append [] t h = cc
filled-append (c ∷ s) t h = refl

pub ends-append :
    (s t : Text) → is_empty t ≡ false → StartsClean (reverse t) → StartsClean (reverse (s ++ t))
ends-append s t h k =
    rw (reverse-append s t) (starts-append (reverse t) (reverse s) (reverse-filled t h) k)

pub Lacks-append : (c : ℕ) (s t : Text) → Lacks c s → Lacks c t → Lacks c (s ++ t)
Lacks-append c [] t hs ht = ht
Lacks-append c (d ∷ s) t hs ht = (hs.0, Lacks-append c s t hs.1 ht)

pub AllSpaces-Lacks : (s : Text) → AllSpaces s → Lacks 61 s
AllSpaces-Lacks [] h = tt
AllSpaces-Lacks (c ∷ s) h = (ground arith, AllSpaces-Lacks s h.1)

cut :
    (l r : Text) (c : Config)
    → Lacks 61 l
    → parse_trimmed (l ++ 61 ∷ r) c ≡ set_value (trim l) (trim r) c
cut l r c h =
    rw (find-Lacks 61 [] l r h, parse_trimmed)
      (rw (take-length l (61 ∷ r), drop-drop (length l) 1 (l ++ 61 ∷ r))
        (rw (drop-length l (61 ∷ r))))

-- A line "name = value" sets that name to that value, whatever white space stands about them, if
-- neither is empty or has white space at an end, and the name has no equals sign.
pub parse_line-set_value :
    (w x y z name value : Text) (c : Config)
    → AllSpaces w
    → AllSpaces x
    → AllSpaces y
    → AllSpaces z
    → IsSetting name value
    → parse_line (w ++ (((name ++ x) ++ 61 ∷ (y ++ value)) ++ z)) c ≡ set_value name value c
unfolding parse_line
parse_line-set_value w x y z name value c hw hx hy hz h =
    let m = (name ++ x) ++ 61 ∷ (y ++ value) in
    let clean : IsTrimmed m = (
      starts-append (name ++ x) (61 ∷ (y ++ value)) (filled-append name x h.1)
          (starts-append name x h.1 h.2.0),
      ends-append (name ++ x) (61 ∷ (y ++ value)) refl (ends-append (61 ∷ y) value h.3 h.4.1),
    ) in
    ap (λ t. parse_trimmed t c) (trim-spaces w m z hw hz clean)
    ∙ cut (name ++ x) (y ++ value) c (Lacks-append 61 name x h.0 (AllSpaces-Lacks x hx))
    ∙ ap (λ t. set_value t (trim (y ++ value)) c) (trim-spaces [] name x tt hx h.2)
    ∙ ap (λ t. set_value name t c)
        (ap (λ t. trim (y ++ t)) (sym (append-nil value)) ∙ trim-spaces y value [] hy tt h.4)
