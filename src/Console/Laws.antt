-- ===== src/Console/Laws.antt =====
-- What the command line reader of src/main.rs makes of a line.
use mathlib.Core.List.{append_assoc}
use smo_multi_rs.Base.{
  ℕ, ◌≡◌, refl, sym, ap, ◌∙◌, List, [], ◌∷◌, ◌++◌, Bool, true, false, All, map, concat, arith,
  Option, some, ◌==◌,
}
use smo_multi_rs.Commands.{CliCommand, cli}
use smo_multi_rs.Console.{
  is_white, trim_start, kept, trim_end, trim, onto_first, split, Console, prompt, parsed, entered,
  read_command, parse_command,
}
use smo_multi_rs.Coordinator.Delivery.{sending, send_up}
use smo_multi_rs.Coordinator.Handle.{handle_command}
use smo_multi_rs.Coordinator.State.{State}
use smo_multi_rs.Errors.{ok, panic}
use smo_multi_rs.Settings.{codes}

abbrev IsBlack : ℕ → Type 0
IsBlack c = is_white c ≡ false

-- A word: at least one character, and no white space.
abbrev pub IsWord : List ℕ → Type 0
IsWord [] = ⊥
IsWord (c ∷ cs) = All IsBlack (c ∷ cs)

-- Words with a space before each.
abbrev spaced : List (List ℕ) → List ℕ
spaced ws = concat (map (λ w. 32 ∷ w) ws)

not_space : (c : ℕ) → is_white c ≡ false → (c == 32) ≡ false
not_space c h = ground arith

kept-black : (c : ℕ) (cs : List ℕ) → is_white c ≡ false → kept c cs ≡ c ∷ cs
unfolding kept
kept-black c [] h = rw h refl
kept-black c (d ∷ ds) h = refl

trim_end-black :
    (w r : List ℕ)
    → All IsBlack w
    → trim_end (r ++ (10 ∷ [])) ≡ r
    → trim_end (w ++ (r ++ (10 ∷ []))) ≡ w ++ r
unfolding trim_end kept
trim_end-black [] r h e = e
trim_end-black (c ∷ w) r h e = rw (trim_end-black w r h.1 e) (kept-black c (w ++ r) h.0)

trim_end-spaced :
    (ws : List (List ℕ)) → All IsWord ws → trim_end (spaced ws ++ (10 ∷ [])) ≡ spaced ws
unfolding trim_end kept
trim_end-spaced [] h = refl
trim_end-spaced ([] ∷ ws) h = absurd h.0
trim_end-spaced ((c ∷ w) ∷ ws) h = ap (kept 32) (
    ap trim_end (append_assoc (c ∷ w) (spaced ws) (10 ∷ []))
    ∙ trim_end-black (c ∷ w) (spaced ws) h.0 (trim_end-spaced ws h.1))

split-word :
    (w : List ℕ) (ws : List (List ℕ))
    → All IsBlack w
    → split (spaced ws) ≡ [] ∷ ws
    → split (w ++ spaced ws) ≡ w ∷ ws
unfolding split onto_first
split-word [] ws h e = e
split-word (c ∷ w) ws h e = rw (split-word w ws h.1 e, not_space c h.0) refl

split-spaced : (ws : List (List ℕ)) → All IsWord ws → split (spaced ws) ≡ [] ∷ ws
unfolding split
split-spaced [] h = refl
split-spaced ([] ∷ ws) h = absurd h.0
split-spaced ((c ∷ w) ∷ ws) h = ap (◌∷◌ []) (split-word (c ∷ w) ws h.0 (split-spaced ws h.1))

-- The line for words that are typed with one space between two of them, and the line break.
abbrev pub typed : List ℕ → List (List ℕ) → List ℕ
typed w ws = w ++ (spaced ws ++ (10 ∷ []))

-- The prompt's character takes the place of the program's name.
words_typed :
    (w : List ℕ) (ws : List (List ℕ))
    → IsWord w
    → All IsWord ws
    → split (trim (prompt ++ typed w ws)) ≡ codes ">" ∷ w ∷ ws
unfolding trim trim_start
words_typed w ws h hs =
    rw (trimmed w ws h hs)
      (split-word (codes ">") (w ∷ ws) (refl, tt) (split-spaced (w ∷ ws) (h, hs)))
  where
    trimmed :
        (w : List ℕ) (ws : List (List ℕ))
        → IsWord w
        → All IsWord ws
        → trim_end (prompt ++ typed w ws) ≡ codes ">" ++ spaced (w ∷ ws)
    trimmed [] ws h hs = absurd h
    trimmed (c ∷ w) ws h hs =
        ap (λ r. trim_end (prompt ++ r)) (sym (append_assoc (c ∷ w) (spaced ws) (10 ∷ [])))
        ∙ trim_end-black (codes ">") (spaced ((c ∷ w) ∷ ws)) (refl, tt)
            (trim_end-spaced ((c ∷ w) ∷ ws) (h, hs))

-- Let every channel have its receiver, the prompt be flushed, and words without white space be
-- typed with one space between two of them. Then the derived parser gets exactly these words,
-- after `>` as the program's name. Where it makes a command of them, the reader sends the command
-- to the coordinator, and the coordinator panics at it.
pub parse_command-todo :
    (accepts : ℕ → ℕ → Bool)
    → ((n channel : ℕ) → accepts n channel ≡ true)
    → (try_parse_from : List (List ℕ) → Option CliCommand) (to_coord : ℕ) (w : List ℕ)
      (ws : List (List ℕ)) (c : CliCommand) (s : State)
    → IsWord w
    → All IsWord ws
    → try_parse_from (codes ">" ∷ w ∷ ws) ≡ some c
    → let console : Console = record { flushes = true; line = some (typed w ws) } in
      let (answer, s') = parse_command accepts try_parse_from to_coord true console s in
      (answer ≡ ok tt)
      × (s' ≡ sending s ((to_coord, cli c) ∷ []))
      × ((handle_command accepts (cli c) s').0 ≡ panic)
unfolding parse_command read_command entered parsed handle_command
parse_command-todo accepts up try_parse_from to_coord w ws c s h hs known =
    rw (words_typed w ws h hs, known, send_up accepts up to_coord (cli c) s) (refl, refl, refl)
