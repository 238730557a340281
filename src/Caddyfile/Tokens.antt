-- ===== src/Caddyfile/Tokens.antt =====
-- A dispenser that follows Caddy's own closely enough to run the readers: the tokens of one file, each
-- with whether it is the first of its line.
use Prim.Native.String.{String}
use caddy_fair_admission.Prelude.{
  ℕ, ◌+◌, ◌-◌, ◌≤◌, ◌<◌, ◌≡◌, Bool, true, false, List, [], ◌∷◌, ◌++◌, ◌||◌, ltb, arith, refl,
  length, if◌then◌else◌, Bool-cases, inl, inr,
}
use caddy_fair_admission.GoMap.{same}
use caddy_fair_admission.Caddyfile.{Dispenser}
use caddy_fair_admission.Caddyfile.Returns.{Advances}

pub record Token : Type 0 where
  pub text : String
  pub starts_line : Bool

pub record Cursor : Type 0 where
  pub current : String
  pub ahead : List Token
  pub nesting : ℕ

abbrev next_of : List Token → Cursor → Bool × Cursor
next_of [] c = (false, c)
next_of (t ∷ more) c = (true, record c { current = t.text; ahead = more })

-- A closing brace ends the block; any other token is the block's.
abbrev inside : List Token → Cursor → Bool × Cursor
inside [] c = (false, c)
inside (t ∷ more) c =
    if same t.text "}"
    then (false, record { current = t.text; ahead = more; nesting = c.nesting - 1 })
    else (true, record c { current = t.text; ahead = more })

-- A block opens with a brace on the same line, and has a token before its closing brace.
abbrev opening : List Token → Cursor → Bool × Cursor
opening (brace ∷ t ∷ more) c =
    if same brace.text "{"
    then (if same t.text "}"
        then (false, record c { current = t.text; ahead = more })
        else (true, record { current = t.text; ahead = more; nesting = c.nesting + 1 }))
    else (false, c)
opening _ c = (false, c)

abbrev arg_of : List Token → Cursor → Bool × Cursor
arg_of [] c = (false, c)
arg_of (t ∷ more) c =
    if t.starts_line || same t.text "{"
    then (false, c)
    else (true, record c { current = t.text; ahead = more })

-- The arguments that are left on the line, and what is ahead of them.
abbrev args_of : List Token → List String × List Token
args_of [] = ([], [])
args_of (t ∷ more) =
    let rest : List String × List Token = (t.text ∷ (args_of more).0, (args_of more).1) in
    if t.starts_line || same t.text "{" then ([], t ∷ more) else rest

abbrev pub tokens : Dispenser
tokens = record {
  Place = Cursor;
  next = λ c. next_of c.ahead c;
  next_block = λ n c. if ltb n c.nesting then inside c.ahead c else opening c.ahead c;
  next_arg = λ c. arg_of c.ahead c;
  val = λ c. c.current;
  remaining_args = λ c. ((args_of c.ahead).0, record c { ahead = (args_of c.ahead).1 });
}

abbrev Moves : List Token → Bool × Cursor → Type 0
Moves before (moved, c) =
    (length c.ahead ≤ length before) × (moved ≡ true → length c.ahead < length before)

next_of-Moves : (ts : List Token) (c : Cursor) → c.ahead ≡ ts → Moves ts (next_of ts c)
next_of-Moves [] c e = ground arith
next_of-Moves (t ∷ more) c e = ground arith

inside-Moves : (ts : List Token) (c : Cursor) → c.ahead ≡ ts → Moves ts (inside ts c)
inside-Moves [] c e = ground arith
inside-Moves (t ∷ more) c e = ground arith

opening-Moves : (ts : List Token) (c : Cursor) → c.ahead ≡ ts → Moves ts (opening ts c)
opening-Moves [] c e = ground arith
opening-Moves (t ∷ []) c e = ground arith
opening-Moves (b ∷ t ∷ more) c e = ground arith

arg_of-Moves : (ts : List Token) (c : Cursor) → c.ahead ≡ ts → Moves ts (arg_of ts c)
arg_of-Moves [] c e = ground arith
arg_of-Moves (t ∷ more) c e = ground arith

args_of-le : (ts : List Token) → length (args_of ts).1 ≤ length ts
args_of-le [] = omega arith
args_of-le (t ∷ more) = ground (arith, args_of-le more)

block-Moves :
    (n : ℕ) (c : Cursor)
    → Moves c.ahead (if ltb n c.nesting then inside c.ahead c else opening c.ahead c)
block-Moves n c = elim (Bool-cases (ltb n c.nesting)) [
  | inl e ↦ rw e (inside-Moves c.ahead c refl)
  | inr e ↦ rw e (opening-Moves c.ahead c refl)
]

unfoldable pub tokens-Advances : Advances tokens
unfolding next_of-Moves block-Moves inside-Moves opening-Moves arg_of-Moves args_of-le
tokens-Advances = record {
  left = λ c. length c.ahead;
  next_le = λ c. (next_of-Moves c.ahead c refl).0;
  next_lt = λ c. (next_of-Moves c.ahead c refl).1;
  next_block_le = λ n c. (block-Moves n c).0;
  next_block_lt = λ n c. (block-Moves n c).1;
  next_arg_le = λ c. (arg_of-Moves c.ahead c refl).0;
  remaining_args_le = λ c. args_of-le c.ahead;
}

abbrev word : String → Token
word text = record { text = text; starts_line = false }

abbrev pub words : List String → List Token
words [] = []
words (text ∷ more) = word text ∷ words more

-- The tokens of one line.
abbrev pub line : List String → List Token
line [] = []
line (text ∷ more) = record { text = text; starts_line = true } ∷ words more

abbrev pub lines : List (List String) → List Token
lines [] = []
lines (l ∷ more) = line l ++ lines more

-- Before the first token.
abbrev pub file : List (List String) → Cursor
file ls = record { current = ""; ahead = lines ls; nesting = 0 }
