-- ===== src/Messages/Offsets.antt =====
-- How far a transcript has been read.
use agent_dash.Prelude.{
  ℕ, String, ◌≡◌, refl, ◌∙◌, ap, sym, some, List, [], ◌∷◌, ◌++◌, arith, leb, if_false, if_true,
  filter, filter_map, not, Option, ◌==◌, Bool,
}
use Prim.Native.String.{◌++◌ as ◌<>◌, len, slice}
use Prim.Native.String as S
use text.Mathlib.TextPositions.{len-append, len_utf8-pos, slice-append_right}
use text.Mathlib.TextLemmas.{append-nil, append_assoc}
use Prim.Native.String.append
use Prim.Native.String.len
use agent_dash.Protocol.{ChatMessage}
use agent_dash.Messages.Json.{Json}
use agent_dash.Messages.Strings.{trim, lines_from}
use agent_dash.Messages.Blocks.{parse_lines, parse_one_line}
use agent_dash.Messages.Files.{Files, full_lines, read_new_messages}

filter-append :
    {A : Type 0} (p : A → Bool) (xs ys : List A) → filter p (xs ++ ys) ≡ filter p xs ++ filter p ys
filter-append p [] ys = refl
filter-append p (x ∷ xs) ys = ground (arith, filter-append p xs ys)

filter_map-append :
    {A B : Type 0} (f : A → Option B) (xs ys : List A)
    → filter_map f (xs ++ ys) ≡ filter_map f xs ++ filter_map f ys
filter_map-append f [] ys = refl
filter_map-append f (x ∷ xs) ys = ground (arith, filter_map-append f xs ys)

-- What follows a line feed begins a new line.
lines_from-feed :
    (line a rest : String)
    → lines_from line (a <> S.◌∷◌ "\n" rest) ≡ lines_from line (a <> "\n") ++ lines_from "" rest
unfolding lines_from
lines_from-feed line S.[] rest =
    ap (lines_from line) (append.nil (S.◌∷◌ "\n" rest))
    ∙ ap (λ s. lines_from line s ++ lines_from "" rest) (sym (append.nil "\n"))
lines_from-feed line (S.◌∷◌ c a) rest =
    rw (append.cons c a (S.◌∷◌ "\n" rest), append.cons c a "\n")
      (ground (arith, lines_from-feed "" a rest, lines_from-feed (line <> S.◌∷◌ c S.[]) a rest))

lines_from-append :
    (line a rest : String)
    → lines_from line ((a <> "\n") <> rest) ≡ lines_from line (a <> "\n") ++ lines_from "" rest
lines_from-append line a rest =
    ap (lines_from line) (
      append_assoc a "\n" rest
      ∙ ap (λ s. a <> s) (append.cons "\n" S.[] rest ∙ ap (S.◌∷◌ "\n") (append.nil rest)))
    ∙ lines_from-feed line a rest

-- a file system in which every file holds one text
abbrev pub holding : String → Files
holding text = record {
  file_len = λ path. some (len text);
  read_from = λ path offset. some (slice text offset (len text));
}

module _ {V : Type 0} (json : Json V) (markdown_to_html : String → String) where
  abbrev parse_text : String → String → List (ChatMessage V)
  parse_text format s = parse_lines json markdown_to_html (full_lines s) format

  parse_text-append :
      (format a rest : String)
      → parse_text format ((a <> "\n") <> rest)
        ≡ parse_text format (a <> "\n") ++ parse_text format rest
  parse_text-append format a rest =
      ap (λ ls. parse_lines json markdown_to_html (filter (λ l. not (trim l == "")) ls) format)
        (lines_from-append "" a rest)
      ∙ ap (λ ls. parse_lines json markdown_to_html ls format)
          (filter-append (λ l. not (trim l == "")) (lines_from "" (a <> "\n")) (lines_from "" rest))
      ∙ filter_map-append (λ line. parse_one_line json markdown_to_html line format)
          (full_lines (a <> "\n")) (full_lines rest)

  -- from where one reading has stopped, the next gives what has been added
  read-added :
      (path format before text : String)
      → read_new_messages json markdown_to_html (holding (before <> text)) path (len before) format
        ≡ (parse_text format text, len (before <> text))
  unfolding read_new_messages lines_from
  read-added path format before S.[] =
      let size : len (before <> "") ≡ len before = ap len (append-nil before) in
      if_true {b = leb (len (before <> "")) (len before)} _ _ (ground (arith, size))
      ∙ ap (λ n. ([], n)) (sym size)
  read-added path format before (S.◌∷◌ c text) =
      let added = S.◌∷◌ c text in
      if_false {b = leb (len (before <> added)) (len before)} _ _
        (ground (arith, len-append before added, len.cons c text, (len_utf8-pos c).1))
      ∙ ap (λ s. (parse_text format s, len (before <> added)))
          (ap (slice (before <> added) (len before)) (len-append before added)
            ∙ slice-append_right before added)

  -- Two readings of a transcript, of which the first finds it with a complete last line and the
  -- second, when text may have been added, starts where the first has stopped, give together, in
  -- order, the messages that one reading of the grown transcript from the same place gives, and stop
  -- where it stops.
  pub read_new_messages_twice :
      (path format before a rest : String)
      → let old = before <> (a <> "\n") in
        let new = before <> ((a <> "\n") <> rest) in
        let (first, middle) =
          read_new_messages json markdown_to_html (holding old) path (len before) format in
        let (second, last) =
          read_new_messages json markdown_to_html (holding new) path middle format in
        read_new_messages json markdown_to_html (holding new) path (len before) format
        ≡ (first ++ second, last)
  read_new_messages_twice path format before a rest =
      let done = a <> "\n" in
      let old = before <> done in
      let whole : old <> rest ≡ before <> (done <> rest) = append_assoc before done rest in
      let read = λ (s : String) (offset : ℕ).
        read_new_messages json markdown_to_html (holding s) path offset format in
      let second : read (before <> (done <> rest)) (len old)
          ≡ (parse_text format rest, len (before <> (done <> rest))) =
        ap (λ s. read s (len old)) (sym whole)
        ∙ read-added path format old rest
        ∙ ap (λ s. (parse_text format rest, len s)) whole in
      rw (read-added path format before done, second, read-added path format before (done <> rest))
        (ap (λ ms. (ms, len (before <> (done <> rest)))) (parse_text-append format a rest))
