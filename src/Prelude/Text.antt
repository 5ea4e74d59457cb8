-- ===== src/Prelude/Text.antt =====
-- Python's `strip`, `split(",")` and `",".join` on texts.
use Prim.Native.Char.{Char, code}
use Prim.Native.String.{String}
use mathlib.Core.Path.{◌≡◌, refl}
use mathlib.Core.Bool.{Bool, true, not, ◌&&◌, ◌||◌}
use mathlib.Core.List.{List, [], ◌∷◌}
use native.Mathlib.Omega.{arith}
use lluna.Prelude.Tests.{leb, nat_beq, if◌then◌else◌}

-- `str.isspace` for one character.
unfoldable pub is_space : Char → Bool
is_space c =
    let n = code c in
    (leb 9 n && leb n 13)
    || (leb 28 n && leb n 32)
    || nat_beq n 133
    || nat_beq n 160
    || nat_beq n 5760
    || (leb 8192 n && leb n 8202)
    || nat_beq n 8232
    || nat_beq n 8233
    || nat_beq n 8239
    || nat_beq n 8287
    || nat_beq n 12288

unfoldable pub is_comma : Char → Bool
is_comma c = nat_beq (code c) 44

unfoldable pub lstrip : String → String
lstrip String.[] = String.[]
lstrip (String.◌∷◌ c s) = if is_space c then lstrip s else String.◌∷◌ c s

abbrev pub push_back : Char → String → String
push_back c String.[] = if is_space c then String.[] else String.◌∷◌ c String.[]
push_back c (String.◌∷◌ d s) = String.◌∷◌ c (String.◌∷◌ d s)

unfoldable pub rstrip : String → String
rstrip String.[] = String.[]
rstrip (String.◌∷◌ c s) = push_back c (rstrip s)

abbrev pub strip : String → String
strip s = rstrip (lstrip s)

abbrev pub prepend : Char → List String → List String
prepend c [] = String.◌∷◌ c String.[] ∷ []
prepend c (part ∷ parts) = String.◌∷◌ c part ∷ parts

-- `s.split(",")`
unfoldable pub split : String → List String
split String.[] = String.[] ∷ []
split (String.◌∷◌ c s) =
    let parts = split s in if is_comma c then String.[] ∷ parts else prepend c parts

unfoldable pub append_text : String → String → String
append_text String.[] t = t
append_text (String.◌∷◌ c s) t = String.◌∷◌ c (append_text s t)

-- `",".join(xs)`
unfoldable pub join : List String → String
unfolding append_text
join [] = String.[]
join (x ∷ []) = x
join (x ∷ y ∷ ys) = append_text x (append_text "," (join (y ∷ ys)))

-- No character of the text is a space or a comma.
unfoldable pub is_plain : String → Bool
is_plain String.[] = true
is_plain (String.◌∷◌ c s) = not (is_space c) && not (is_comma c) && is_plain s

-- No character of the text is a space.
unfoldable pub has_no_space : String → Bool
has_no_space String.[] = true
has_no_space (String.◌∷◌ c s) = not (is_space c) && has_no_space s

rstrip_id : (s : String) → has_no_space s ≡ true → rstrip s ≡ s
unfolding rstrip has_no_space
rstrip_id String.[] h = refl
rstrip_id (String.◌∷◌ c String.[]) h = ground (arith, h)
rstrip_id (String.◌∷◌ c (String.◌∷◌ d s)) h =
    let rest = rstrip_id (String.◌∷◌ d s) (ground (arith, h)) in rw rest refl

lstrip_id : (s : String) → has_no_space s ≡ true → lstrip s ≡ s
unfolding lstrip has_no_space
lstrip_id String.[] h = refl
lstrip_id (String.◌∷◌ c s) h = ground (arith, h)

split-comma : (t : String) → split (append_text "," t) ≡ String.[] ∷ split t
unfolding split append_text is_comma
split-comma t = refl

split-append :
    (v t : String) → is_plain v ≡ true → split (append_text v (append_text "," t)) ≡ v ∷ split t
unfolding split append_text is_plain
split-append String.[] t h = split-comma t
split-append (String.◌∷◌ c v) t h = ground (arith, h, split-append v t)

split_plain : (v : String) → is_plain v ≡ true → split v ≡ v ∷ []
unfolding split is_plain
split_plain String.[] h = refl
split_plain (String.◌∷◌ c v) h = ground (arith, h, split_plain v)

abbrev pub all_plain : List String → Bool
all_plain [] = true
all_plain (x ∷ xs) = is_plain x && all_plain xs

-- Plain texts come back from `split`.
pub split-join :
    (x : String) (xs : List String) → all_plain (x ∷ xs) ≡ true → split (join (x ∷ xs)) ≡ x ∷ xs
unfolding join
split-join x [] h = split_plain x (ground (arith, h))
split-join x (y ∷ ys) h =
    ground (
      arith,
      split-append x (join (y ∷ ys)) (ground (arith, h)),
      split-join y ys (ground (arith, h)),
    )

plain-has_no_space : (v : String) → is_plain v ≡ true → has_no_space v ≡ true
unfolding is_plain has_no_space
plain-has_no_space String.[] h = refl
plain-has_no_space (String.◌∷◌ c v) h = ground (arith, h, plain-has_no_space v)

has_no_space-append :
    (v t : String)
    → has_no_space v ≡ true
    → has_no_space t ≡ true
    → has_no_space (append_text v t) ≡ true
unfolding has_no_space append_text
has_no_space-append String.[] t h g = g
has_no_space-append (String.◌∷◌ c v) t h g = ground (arith, h, g, has_no_space-append v t)

has_no_space-join : (xs : List String) → all_plain xs ≡ true → has_no_space (join xs) ≡ true
unfolding join has_no_space is_space
has_no_space-join [] h = refl
has_no_space-join (x ∷ []) h = plain-has_no_space x (ground (arith, h))
has_no_space-join (x ∷ y ∷ ys) h =
    has_no_space-append x (append_text "," (join (y ∷ ys)))
      (plain-has_no_space x (ground (arith, h)))
      (has_no_space-append "," (join (y ∷ ys)) refl
        (has_no_space-join (y ∷ ys) (ground (arith, h))))

pub strip_id : (s : String) → has_no_space s ≡ true → strip s ≡ s
strip_id s h = rw (lstrip_id s h) (rstrip_id s h)

pub strip_plain : (v : String) → is_plain v ≡ true → strip v ≡ v
strip_plain v h = strip_id v (plain-has_no_space v h)

pub strip-join : (xs : List String) → all_plain xs ≡ true → strip (join xs) ≡ join xs
strip-join xs h = strip_id (join xs) (has_no_space-join xs h)
