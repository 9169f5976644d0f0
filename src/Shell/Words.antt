-- ===== src/Shell/Words.antt =====
-- Reading the words and the redirections of a printed command of sh.c.
use lab7sp25_shelnutt.Base.{
  sym, ℕ, zero, suc, ◌<◌, ◌≡◌, refl, ap, ◌∙◌, true, false, List, [], ◌∷◌, ◌++◌, ◌==◌, leb, length,
  arith, length-append, append_assoc, append-nil, Bool-cases, inl, inr,
}
use lab7sp25_shelnutt.Shell.{
  redir_of, contains, is_space, in_word, skip_space, take_word, Token, token_at, gettoken, peek,
  Redir, read, redirs_from, parseredirs, then_redirs, parsed, args_from, parse_simple, wrap, exec,
  maxargs, o_rdonly, o_wronly_create,
}
use lab7sp25_shelnutt.Shell.Printing.{
  space, words, symbol_of, IsRedir, redirs_text, WordBytes, IsWord, AreWords, AreRedirs, Ends,
  finish, close, semi, amp, bar, Clean, Ends-Clean,
}

take_word-word : (w s : List ℕ) → WordBytes w → take_word (w ++ space ∷ s) ≡ (w, space ∷ s)
unfolding take_word
take_word-word [] s b = refl
take_word-word (c ∷ w) s (z, i, b) = rw (i, take_word-word w s b) refl

word_byte :
    (c : ℕ)
    → in_word c ≡ true
    → (is_space c ≡ false)
      × (contains (b'|' ∷ b'(' ∷ b')' ∷ b';' ∷ b'&' ∷ b'<' ∷ []) c ≡ false)
      × ((c == b'>') ≡ false)
word_byte c h = (ground arith, ground arith, ground arith)

pub word-Clean : (w s : List ℕ) → IsWord w → Clean (w ++ s)
unfolding skip_space
word-Clean [] s (l, b) = absurd (omega arith)
word-Clean (c ∷ w) s (l, (z, i, b)) = rw ((word_byte c i).0) refl

abbrev word_token : List ℕ → List ℕ → Token
word_token w s = record { ret = b'a'; text = w; rest = s }

pub gettoken-word : (w s : List ℕ) → IsWord w → Clean s → gettoken (w ++ space ∷ s) ≡ word_token w s
unfolding gettoken token_at take_word skip_space
gettoken-word [] s (l, b) h = absurd (omega arith)
gettoken-word (c ∷ w) s (l, (z, i, b)) h =
    let (sp, k, g) = word_byte c i in rw (sp, k, g, i, take_word-word w s b, h) refl

-- The bytes that the parser looks for are none of a word.
pub peek-word :
    (w s toks : List ℕ)
    → IsWord w
    → ((c : ℕ) → in_word c ≡ true → contains toks c ≡ false)
    → peek (w ++ s) toks ≡ (false, w ++ s)
unfolding peek
peek-word [] s toks (l, b) h = absurd (omega arith)
peek-word (c ∷ w) s toks (l, (z, i, b)) h = rw (word-Clean (c ∷ w) s (l, (z, i, b)), z, h c i) refl

pub no_redir : (c : ℕ) → in_word c ≡ true → contains (b'<' ∷ b'>' ∷ []) c ≡ false
no_redir c h = ground arith

pub no_end : (c : ℕ) → in_word c ≡ true → contains (b'|' ∷ b')' ∷ b'&' ∷ b';' ∷ []) c ≡ false
no_end c h = ground arith

pub no_block : (c : ℕ) → in_word c ≡ true → contains (b'(' ∷ []) c ≡ false
no_block c h = ground arith

pub redirs_text-Clean : (rs : List Redir) (s : List ℕ) → Clean s → Clean (redirs_text rs s)
unfolding skip_space
redirs_text-Clean [] s h = h
redirs_text-Clean (r ∷ rs) s h = elim (Bool-cases (r.fd == 0)) [
  | inl y ↦ rw y refl
  | inr n ↦ rw n refl
]

pub words-Clean : (ws : List (List ℕ)) (s : List ℕ) → AreWords ws → Clean s → Clean (words ws s)
words-Clean [] s a h = h
words-Clean (w ∷ ws) s (a, b) h = word-Clean w (space ∷ words ws s) a

symbol_token : ℕ → List ℕ → Token
symbol_token c s = record { ret = c; text = c ∷ []; rest = s }

peek-symbol_of :
    (fd : ℕ) (s : List ℕ) → peek (symbol_of fd ∷ s) (b'<' ∷ b'>' ∷ []) ≡ (true, symbol_of fd ∷ s)
unfolding peek skip_space
peek-symbol_of fd s = elim (Bool-cases (fd == 0)) [ inl y ↦ rw y refl | inr n ↦ rw n refl ]

gettoken-symbol_of :
    (fd : ℕ) (s : List ℕ)
    → Clean s
    → gettoken (symbol_of fd ∷ space ∷ s) ≡ symbol_token (symbol_of fd) s
unfolding gettoken token_at skip_space symbol_token
gettoken-symbol_of fd s h = elim (Bool-cases (fd == 0)) [
  | inl y ↦ rw (y, h) refl
  | inr n ↦ rw (n, h) refl
]

redirs_end :
    (n fuel : ℕ) (rs : List Redir) (s : List ℕ) → Ends n s → redirs_from (suc fuel) rs s ≡ read rs s
unfolding redirs_from peek skip_space
redirs_end n fuel rs s finish = refl
redirs_end n fuel rs s (close t) = refl
redirs_end n fuel rs s (semi t) = refl
redirs_end n fuel rs s (amp t) = refl
redirs_end n fuel rs s (bar t) = refl

abbrev redir_with : List ℕ → ℕ → ℕ → Redir
redir_with file mode fd = record { file = file; mode = mode; fd = fd }

redir_of-symbol_of : (q : Redir) → IsRedir q → redir_of (symbol_of q.fd) q.file ≡ q
redir_of-symbol_of q (w, m, l) = elim (Bool-cases (q.fd == 0)) [
  | inl y ↦
      let z : 0 ≡ q.fd = ground arith in
      let k : o_rdonly ≡ q.mode = sym (m ∙ rw y refl) in
      rw y (ap (redir_with q.file o_rdonly) z ∙ ap (λ x. redir_with q.file x q.fd) k)
  | inr n ↦
      let z : 1 ≡ q.fd = ground arith in
      let k : o_wronly_create ≡ q.mode = sym (m ∙ rw n refl) in
      rw n (ap (redir_with q.file o_wronly_create) z ∙ ap (λ x. redir_with q.file x q.fd) k)
]

redirs_from-redirs_text :
    (n fuel : ℕ) (rs qs : List Redir) (s : List ℕ)
    → AreRedirs qs
    → Ends n s
    → length (redirs_text qs s) < fuel
    → redirs_from fuel rs (redirs_text qs s) ≡ read (rs ++ qs) s
unfolding redirs_from symbol_token
redirs_from-redirs_text n zero rs qs s a e l = absurd (omega arith)
redirs_from-redirs_text n (suc fuel) rs [] s a e l = rw (append-nil rs) (redirs_end n fuel rs s e)
redirs_from-redirs_text n (suc fuel) rs (q ∷ qs) s ((w, m, f), a) e l =
    let same = redir_of-symbol_of q (w, m, f) in
    let tail_text = redirs_text qs s in
    let c = redirs_text-Clean qs s (Ends-Clean e) in
    let ih =
      redirs_from-redirs_text n fuel (rs ++ q ∷ []) qs s a e
        (omega (arith, length-append q.file (space ∷ tail_text))) in
    rw
      (
        peek-symbol_of q.fd (space ∷ (q.file ++ space ∷ tail_text)),
        gettoken-symbol_of q.fd (q.file ++ space ∷ tail_text)
            (word-Clean q.file (space ∷ tail_text) w),
        gettoken-word q.file tail_text w c,
        same,
        redirs_from,
      )
      (ih ∙ ap (λ r. read r s) (append_assoc rs (q ∷ []) qs))

pub parseredirs-redirs_text :
    (n : ℕ) (qs : List Redir) (s : List ℕ)
    → AreRedirs qs
    → Ends n s
    → parseredirs (redirs_text qs s) ≡ read qs s
unfolding parseredirs
parseredirs-redirs_text n qs s a e =
    redirs_from-redirs_text n (suc (length (redirs_text qs s))) [] qs s a e (omega arith)

-- A word has no redirections in front.
parseredirs-word : (w s : List ℕ) → IsWord w → parseredirs (w ++ s) ≡ read [] (w ++ s)
unfolding parseredirs redirs_from
parseredirs-word w s h = rw (peek-word w s (b'<' ∷ b'>' ∷ []) h no_redir, redirs_from) refl

-- A round of parseexec over a word.
args_from-word :
    (fuel : ℕ) (argv : List (List ℕ)) (rs : List Redir) (w s : List ℕ)
    → IsWord w
    → Clean s
    → length (argv ++ w ∷ []) < maxargs
    → args_from (suc fuel) argv rs (w ++ space ∷ s)
      ≡ then_redirs (parseredirs s) (λ more s2. args_from fuel (argv ++ w ∷ []) (rs ++ more) s2)
unfolding args_from
args_from-word fuel argv rs w s h c l =
    let k : leb maxargs (length (argv ++ w ∷ [])) ≡ false = ground arith in
    rw (peek-word w (space ∷ s) (b'|' ∷ b')' ∷ b'&' ∷ b';' ∷ []) h no_end, gettoken-word w s h c, k)
      refl

args_end :
    (n fuel : ℕ) (argv : List (List ℕ)) (rs : List Redir) (s : List ℕ)
    → Ends n s
    → args_from (suc fuel) argv rs s ≡ parsed (wrap (exec argv) rs) s
unfolding args_from peek gettoken token_at skip_space
args_end n fuel argv rs s finish = refl
args_end n fuel argv rs s (close t) = refl
args_end n fuel argv rs s (semi t) = refl
args_end n fuel argv rs s (amp t) = refl
args_end n fuel argv rs s (bar t) = refl

args_from-words :
    (n fuel : ℕ) (argv : List (List ℕ)) (w : List ℕ) (ws : List (List ℕ)) (qs : List Redir)
    (s : List ℕ)
    → AreWords (w ∷ ws)
    → AreRedirs qs
    → Ends n s
    → length (argv ++ w ∷ ws) < maxargs
    → length (words (w ∷ ws) (redirs_text qs s)) < fuel
    → args_from fuel argv [] (words (w ∷ ws) (redirs_text qs s))
      ≡ parsed (wrap (exec (argv ++ w ∷ ws)) qs) s
args_from-words n zero argv w ws qs s a b e l f = absurd (omega arith)
args_from-words n (suc zero) argv w ws qs s a b e l f =
    absurd (omega (arith, length-append w (space ∷ words ws (redirs_text qs s))))
args_from-words n (suc (suc fuel)) argv w [] qs s (h, a) b e l f =
    args_from-word (suc fuel) argv [] w (redirs_text qs s) h (redirs_text-Clean qs s (Ends-Clean e))
      l
    ∙ rw (parseredirs-redirs_text n qs s b e) (args_end n fuel (argv ++ w ∷ []) qs s e)
args_from-words n (suc (suc fuel)) argv w (v ∷ ws) qs s (h, (g, a)) b e l f =
    let next = words (v ∷ ws) (redirs_text qs s) in
    let m : length ((argv ++ w ∷ []) ++ v ∷ ws) < maxargs =
      rw (append_assoc argv (w ∷ []) (v ∷ ws)) l in
    let ih =
      args_from-words n (suc fuel) (argv ++ w ∷ []) v ws qs s (g, a) b e m
        (omega (arith, length-append w (space ∷ next))) in
    args_from-word (suc fuel) argv [] w next h
      (word-Clean v (space ∷ words ws (redirs_text qs s)) g)
      (omega (arith, length-append (argv ++ w ∷ []) (v ∷ ws)))
    ∙ rw (parseredirs-word v (space ∷ words ws (redirs_text qs s)) g)
        (ih ∙ ap (λ x. parsed (wrap (exec x) qs) s) (append_assoc argv (w ∷ []) (v ∷ ws)))

-- A simple command.
pub parse_simple-words :
    (n : ℕ) (ws : List (List ℕ)) (qs : List Redir) (s : List ℕ)
    → AreWords ws
    → AreRedirs qs
    → Ends n s
    → length ws < maxargs
    → parse_simple (words ws (redirs_text qs s)) ≡ parsed (wrap (exec ws) qs) s
unfolding parse_simple
parse_simple-words n [] qs s a b e l =
    rw (parseredirs-redirs_text n qs s b e) (args_end n (length s) [] qs s e)
parse_simple-words n (w ∷ ws) qs s (h, a) b e l =
    let text = words (w ∷ ws) (redirs_text qs s) in
    rw (parseredirs-word w (space ∷ words ws (redirs_text qs s)) h)
      (args_from-words n (suc (length text)) [] w ws qs s (h, a) b e l (omega arith))

peek_block-redirs :
    (n : ℕ) (qs : List Redir) (s : List ℕ)
    → Ends n s
    → peek (redirs_text qs s) (b'(' ∷ []) ≡ (false, redirs_text qs s)
unfolding peek skip_space
peek_block-redirs n [] s finish = refl
peek_block-redirs n [] s (close t) = refl
peek_block-redirs n [] s (semi t) = refl
peek_block-redirs n [] s (amp t) = refl
peek_block-redirs n [] s (bar t) = refl
peek_block-redirs n (q ∷ qs) s e = elim (Bool-cases (q.fd == 0)) [
  | inl y ↦ rw y refl
  | inr z ↦ rw z refl
]

-- A simple command does not begin as a block.
pub peek_block-words :
    (n : ℕ) (ws : List (List ℕ)) (qs : List Redir) (s : List ℕ)
    → AreWords ws
    → Ends n s
    → peek (words ws (redirs_text qs s)) (b'(' ∷ []) ≡ (false, words ws (redirs_text qs s))
peek_block-words n [] qs s a e = peek_block-redirs n qs s e
peek_block-words n (w ∷ ws) qs s (h, a) e =
    peek-word w (space ∷ words ws (redirs_text qs s)) (b'(' ∷ []) h no_block
