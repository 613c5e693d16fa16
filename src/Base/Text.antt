-- ===== src/Base/Text.antt =====
-- Python's `str` methods that the program uses, over native text. Case mapping is that of ASCII;
-- every other character is its own upper and lower case here.
use Prim.Native.Nat.{ℕ, zero, suc, ◌+◌, ◌*◌, ◌^◌, ◌≤◌, ◌<◌, ◌-◌, ◌/◌, ◌%◌, min}
use Prim.Native.Char.{Char, code}
use Prim.Native.String
use Prim.Native.String.{String, count, char_at, compare}
use mathlib.Core.Path.{◌≡◌, refl}
use mathlib.Core.Bool.{Bool, true, false, ◌&&◌, ◌||◌}
use mathlib.Core.List.{List, [], ◌∷◌}
use native.Mathlib.Nat.{pow-suc}
use native.Mathlib.Omega.{arith}
use mathlib.Core.Option.{Option, none, some}
use text.Mathlib.Text.{◌==◌, starts_with, is_le}
use text.Mathlib.TextLemmas.{length-cons, length-nil}
use underlying_analyzer_rebo.Base.Tests.{ltb, leb, nat_eq, if◌then◌else◌}
use underlying_analyzer_rebo.Base.Lists.{any_in}

infixr 66 ◌⧺◌
abbrev pub ◌⧺◌ : String → String → String
s ⧺ t = String.◌++◌ s t

abbrev pub blank : String → Bool
blank String.[] = true
blank (String.◌∷◌ _ _) = false

-- `str.isspace` of one character.
is_space : ℕ → Bool
is_space c =
    leb 9 c && leb c 13
    || leb 28 c && leb c 32
    || leb 8192 c && leb c 8202
    || any_in (nat_eq c) (133 ∷ 160 ∷ 5760 ∷ 8232 ∷ 8233 ∷ 8239 ∷ 8287 ∷ 12288 ∷ [])

strip_left : String → String
strip_left String.[] = ""
strip_left (String.◌∷◌ c s) = if is_space (code c) then strip_left s else String.◌∷◌ c s

strip_right : String → String
strip_right String.[] = ""
strip_right (String.◌∷◌ c s) =
    let rest = strip_right s in if is_space (code c) && blank rest then "" else String.◌∷◌ c rest

unfoldable pub strip : String → String
unfolding strip_left strip_right is_space
strip s = strip_right (strip_left s)

-- `s.rstrip(c)` for one character.
unfoldable pub strip_end : ℕ → String → String
strip_end d String.[] = ""
strip_end d (String.◌∷◌ c s) =
    let rest = strip_end d s in if nat_eq (code c) d && blank rest then "" else String.◌∷◌ c rest

upper_char : Char → Char
upper_char c =
    if leb b'a' (code c) && leb (code c) b'z'
    then char_at "ABCDEFGHIJKLMNOPQRSTUVWXYZ" (code c - b'a')
    else c

lower_char : Char → Char
lower_char c =
    if leb b'A' (code c) && leb (code c) b'Z'
    then char_at "abcdefghijklmnopqrstuvwxyz" (code c - b'A')
    else c

map_text : (Char → Char) → String → String
map_text f String.[] = ""
map_text f (String.◌∷◌ c s) = String.◌∷◌ (f c) (map_text f s)

unfoldable pub upper : String → String
unfolding map_text upper_char
upper = map_text upper_char

unfoldable pub lower : String → String
unfolding map_text lower_char
lower = map_text lower_char

-- `s[:n]`
unfoldable pub take_text : ℕ → String → String
take_text zero s = ""
take_text (suc n) String.[] = ""
take_text (suc n) (String.◌∷◌ c s) = String.◌∷◌ c (take_text n s)

pub count-take_text : (n : ℕ) (s : String) → count (take_text n s) ≡ min n (count s)
unfolding take_text
count-take_text zero s = rw length-nil (omega arith)
count-take_text (suc n) String.[] = rw length-nil (omega arith)
count-take_text (suc n) (String.◌∷◌ c s) = simp length-cons (omega (arith, count-take_text n s))

-- `sep.join(parts)`
unfoldable pub join : String → List String → String
join sep [] = ""
join sep (s ∷ []) = s
join sep (s ∷ t ∷ rest) = s ⧺ sep ⧺ join sep (t ∷ rest)

-- `str(n)` of a natural number; a number has fewer digits than its successor.
digits_from : ℕ → ℕ → String → String
digits_from zero n rest = rest
digits_from (suc fuel) n rest =
    let more = digits_from fuel (n / 10) (String.◌∷◌ (char_at "0123456789" (n % 10)) rest) in
    if ltb n 10 then String.◌∷◌ (char_at "0123456789" (n % 10)) rest else more

unfoldable pub show_nat : ℕ → String
unfolding digits_from
show_nat n = digits_from (suc n) n ""

digits_from-count :
    (k fuel n : ℕ) (rest : String)
    → n < 10 ^ suc k
    → count (digits_from fuel n rest) ≤ suc k + count rest
unfolding digits_from
digits_from-count k zero n rest h = omega arith
digits_from-count zero (suc fuel) n rest h =
    ground (arith, length-cons (char_at "0123456789" (n % 10)) rest)
digits_from-count (suc k) (suc fuel) n rest h =
    let c = char_at "0123456789" (n % 10) in
    let lower : n / 10 < 10 ^ suc k = omega (arith, pow-suc 10 (suc k)) in
    ground (arith, length-cons c rest, digits_from-count k fuel (n / 10) (String.◌∷◌ c rest) lower)

-- A number below 10 ^ k has at most k digits, for a positive k.
pub count-show_nat : (k n : ℕ) → n < 10 ^ suc k → count (show_nat n) ≤ suc k
unfolding show_nat
count-show_nat k n h = omega (arith, digits_from-count k (suc n) n "" h, length-nil)

-- `s.endswith(tail)`
unfoldable pub ends_with : String → String → Bool
ends_with String.[] tail = blank tail
ends_with (String.◌∷◌ c s) tail = (String.◌∷◌ c s == tail) || ends_with s tail

-- `s in texts`
unfoldable pub text_in : String → List String → Bool
text_in s [] = false
text_in s (t ∷ ts) = t == s || text_in s ts

-- `s.replace(old, new)` for an `old` that is not empty; `skip` characters of a match are still to drop.
replace_from : String → String → ℕ → String → String
replace_from old new skip String.[] = ""
replace_from old new zero (String.◌∷◌ c s) =
    let matched = new ⧺ replace_from old new (count old - 1) s in
    let kept = String.◌∷◌ c (replace_from old new 0 s) in
    if starts_with (String.◌∷◌ c s) old then matched else kept
replace_from old new (suc skip) (String.◌∷◌ c s) = replace_from old new skip s

unfoldable pub replace : String → String → String → String
unfolding replace_from
replace s old new = replace_from old new 0 s

-- `s.split(sep)` for one character.
split_from : ℕ → String → String → List String
split_from sep cur String.[] = cur ∷ []
split_from sep cur (String.◌∷◌ c s) =
    let closed = cur ∷ split_from sep "" s in
    let longer = split_from sep (cur ⧺ String.◌∷◌ c String.[]) s in
    if nat_eq (code c) sep then closed else longer

unfoldable pub split : ℕ → String → List String
unfolding split_from
split sep s = split_from sep "" s

-- `int(s)`: digits, with single underscores between them.
digits_of : ℕ → Bool → String → Option ℕ
digits_of acc after String.[] = if after then some acc else none
digits_of acc after (String.◌∷◌ c s) =
    let d = code c in
    let under = digits_of acc false s in
    let more = digits_of (acc * 10 + (d - b'0')) true s in
    if leb b'0' d && leb d b'9' then more else if nat_eq d b'_' && after then under else none

unfoldable pub parse_digits : String → Option ℕ
unfolding digits_of
parse_digits s = digits_of 0 false s

-- `sorted(texts)`
insert_text : String → List String → List String
insert_text s [] = s ∷ []
insert_text s (t ∷ ts) = if is_le (compare s t) then s ∷ t ∷ ts else t ∷ insert_text s ts

unfoldable pub sort_texts : List String → List String
unfolding insert_text
sort_texts [] = []
sort_texts (s ∷ ss) = insert_text s (sort_texts ss)

replace_runs : replace "/api/{a}/{b}/{a}" "{a}" "x" ≡ "/api/x/{b}/x"
unfolding replace
replace_runs = refl

split_runs : split b',' "a, b,," ≡ "a" ∷ " b" ∷ "" ∷ "" ∷ []
unfolding split
split_runs = refl

parse_digits_runs : parse_digits "1_024" ≡ some 1024
unfolding parse_digits
parse_digits_runs = refl

sort_texts_runs : sort_texts ("b" ∷ "a" ∷ "ab" ∷ []) ≡ "a" ∷ "ab" ∷ "b" ∷ []
unfolding sort_texts
sort_texts_runs = refl

strip_runs : strip "\t two words \n" ≡ "two words"
unfolding strip
strip_runs = refl

upper_runs : upper "brk.b" ≡ "BRK.B"
unfolding upper
upper_runs = refl

show_nat_runs : show_nat 2400 ≡ "2400"
unfolding show_nat
show_nat_runs = refl

join_runs : join ", " ("a" ∷ "b" ∷ "c" ∷ []) ≡ "a, b, c"
unfolding join
join_runs = refl
