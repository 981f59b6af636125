-- ===== src/Console/Print/Pieces.antt =====
-- `printk` of stdio/stdio.c against the formats written out as a list of pieces.
use silicio.Strings.{Chars}
use silicio.Strings.Laws.{IsString}
use silicio.Console.Numeral.RoundTrip.{read_number}
use silicio.Console.Print.{
  Arg, number, string, percent, char_letter, string_letter, is_number, text_of,
}
use silicio.Base.{ℕ, true, false, List, [], u8, ◌^◌, ◌≤◌, ◌<◌, ◌≡◌}
use silicio.Base.{◌∷◌, ◌++◌, ◌||◌, ◌==◌}

-- What a format is made of. `skipped` is a '%' with a letter that means nothing.
pub data Piece : Type 0 where
  plain : ℕ → Piece
  one_char : Piece
  numeral : ℕ → Piece
  one_string : Piece
  skipped : ℕ → Piece

unfoldable pub encode : List Piece → List ℕ
encode [] = []
encode (plain c ∷ ps) = c ∷ encode ps
encode (one_char ∷ ps) = percent ∷ char_letter ∷ encode ps
encode (numeral base ∷ ps) = percent ∷ base ∷ encode ps
encode (one_string ∷ ps) = percent ∷ string_letter ∷ encode ps
encode (skipped c ∷ ps) = percent ∷ c ∷ encode ps

-- The pieces take the arguments, in their order.
pub data Takes : List Piece → List Arg → Type 0 where
  done : Takes [] []
  takes_plain :
      {c : ℕ} {ps : List Piece} {args : List Arg}
      → (c == percent) ≡ false
      → Takes ps args
      → Takes (plain c ∷ ps) args
  takes_char :
      {d : ℕ} {ps : List Piece} {args : List Arg}
      → Takes ps args
      → Takes (one_char ∷ ps) (number d ∷ args)
  takes_number :
      {base d : ℕ} {ps : List Piece} {args : List Arg}
      → is_number base ≡ true
      → d < 2 ^ 32
      → Takes ps args
      → Takes (numeral base ∷ ps) (number d ∷ args)
  takes_string :
      {s : List ℕ} {ps : List Piece} {args : List Arg}
      → Takes ps args
      → Takes (one_string ∷ ps) (string s ∷ args)
  takes_skipped :
      {c : ℕ} {ps : List Piece} {args : List Arg}
      → (c == char_letter || is_number c || c == string_letter) ≡ false
      → Takes ps args
      → Takes (skipped c ∷ ps) args

-- The text shows the word `d`: it is a string of at most 11 characters that is read back as `d`.
pub record Shows (base d : ℕ) (s : List ℕ) : Type 0 where
  pub array : Chars
  pub count : ℕ
  pub is_string : IsString array count
  pub short : count ≤ 11
  pub text : s ≡ text_of 20 0 array
  pub reads : read_number base array ≡ d

-- What the pieces print, of their arguments.
pub data Prints : List Piece → List Arg → List ℕ → Type 0 where
  nothing : Prints [] [] []
  prints_plain :
      {c : ℕ} {ps : List Piece} {args : List Arg} {out : List ℕ}
      → Prints ps args out
      → Prints (plain c ∷ ps) args (c ∷ out)
  prints_char :
      {d : ℕ} {ps : List Piece} {args : List Arg} {out : List ℕ}
      → Prints ps args out
      → Prints (one_char ∷ ps) (number d ∷ args) (u8 d ∷ out)
  prints_number :
      {base d : ℕ} {s : List ℕ} {ps : List Piece} {args : List Arg} {out : List ℕ}
      → Shows base d s
      → Prints ps args out
      → Prints (numeral base ∷ ps) (number d ∷ args) (s ++ out)
  prints_string :
      {s : List ℕ} {ps : List Piece} {args : List Arg} {out : List ℕ}
      → Prints ps args out
      → Prints (one_string ∷ ps) (string s ∷ args) (s ++ out)
  prints_skipped :
      {c : ℕ} {ps : List Piece} {args : List Arg} {out : List ℕ}
      → Prints ps args out
      → Prints (skipped c ∷ ps) args out
