-- ===== src/Python/Strings/Laws.antt =====
-- Splitting and joining, and where a text is cut.
use Prim.Native.Char.{Char, code}
use Prim.Native.String.{String, [], ◌∷◌}
use text.Mathlib.TextEquality.{Char-path}
use text.Mathlib.TextLemmas.{append_assoc, nil-append, cons-append}
use fxa_lite.Prelude.{
  ℕ, ◌≡◌, refl, sym, ap, ◌∙◌, true, false, List, [], ◌∷◌, arith, ◌==◌, ==_iff, pop, last_or, All,
}
use fxa_lite.Python.Strings.{◌<>◌, split, push, join, any_char}

abbrev pub IsCons {ℓ} : {A : Type ℓ} → List A → Type 0
IsCons [] = ⊥
IsCons (x ∷ xs) = Unit

push-IsCons : (c : Char) (ws : List String) → IsCons (push c ws)
unfolding push
push-IsCons c [] = tt
push-IsCons c (w ∷ ws) = tt

pub split-IsCons : (sep : ℕ) (s : String) → IsCons (split sep s)
unfolding split
split-IsCons sep [] = tt
split-IsCons sep (c ∷ s) = ground (arith, push-IsCons c (split sep s))

join-push : (sep : String) (c : Char) (ws : List String) → join sep (push c ws) ≡ (c ∷ join sep ws)
unfolding join push
join-push sep c [] = refl
join-push sep c (w ∷ []) = refl
join-push sep c (w ∷ v ∷ vs) = cons-append c w (sep <> join sep (v ∷ vs))

join-cons : (sep : String) (ws : List String) → IsCons ws → join sep ("" ∷ ws) ≡ sep <> join sep ws
unfolding join
join-cons sep [] h = absurd h
join-cons sep (w ∷ ws) h = nil-append (sep <> join sep (w ∷ ws))

-- Joining with the separator undoes the split.
pub join-split : (sep : Char) (s : String) → join (sep ∷ []) (split (code sep) s) ≡ s
unfolding split join
join-split sep [] = refl
join-split sep (c ∷ s) =
    let rest = split (code sep) s in
    let at_sep : code c == code sep ≡ true → join (sep ∷ []) ("" ∷ rest) ≡ (c ∷ s) = λ e.
      let same : sep ≡ c = sym (Char-path c sep ((==_iff (code c) (code sep)).0 e)) in
      join-cons (sep ∷ []) rest (split-IsCons (code sep) s)
      ∙ cons-append sep [] (join (sep ∷ []) rest)
      ∙ ap (λ t. sep ∷ t) (nil-append (join (sep ∷ []) rest) ∙ join-split sep s)
      ∙ ap (λ d. d ∷ s) same in
    let longer : join (sep ∷ []) (push c rest) ≡ (c ∷ s) =
      join-push (sep ∷ []) c rest ∙ ap (λ t. c ∷ t) (join-split sep s) in
    ground (arith, at_sep, longer)

-- The last word stands after the others and a separator.
pub join-pop :
    (sep : String) (w v : String) (ws : List String)
    → join sep (w ∷ v ∷ ws) ≡ join sep (pop (w ∷ v ∷ ws)) <> (sep <> last_or v ws)
unfolding join
join-pop sep w v [] = refl
join-pop sep w v (u ∷ ws) =
    let front = join sep (v ∷ pop (u ∷ ws)) in
    let end = sep <> last_or u ws in
    ap (λ t. w <> (sep <> t)) (join-pop sep v u ws)
    ∙ ap (λ t. w <> t) (sym (append_assoc sep front end))
    ∙ sym (append_assoc w (sep <> front) end)

-- A word without the separator.
abbrev pub IsUnbroken : ℕ → String → Type 0
IsUnbroken sep w = any_char (λ c. c == sep) w ≡ false

split-unbroken : (sep : ℕ) (w : String) → IsUnbroken sep w → split sep w ≡ w ∷ []
unfolding split any_char push
split-unbroken sep [] h = refl
split-unbroken sep (c ∷ w) h =
    let more : split sep w ≡ w ∷ [] = split-unbroken sep w (ground arith) in
    let here : code c == sep ≡ false = ground arith in rw (here, more) refl

split-append :
    (sep : Char) (w s : String)
    → IsUnbroken (code sep) w
    → split (code sep) (w <> ((sep ∷ []) <> s)) ≡ w ∷ split (code sep) s
unfolding split any_char push
split-append sep [] s h =
    let same : code sep == code sep ≡ true = (==_iff (code sep) (code sep)).1 refl in
    ap (split (code sep))
      (nil-append ((sep ∷ []) <> s) ∙ cons-append sep [] s ∙ ap (λ t. sep ∷ t) (nil-append s))
    ∙ rw same refl
split-append sep (c ∷ w) s h =
    let more : split (code sep) (w <> ((sep ∷ []) <> s)) ≡ w ∷ split (code sep) s =
      split-append sep w s (ground arith) in
    let here : code c == code sep ≡ false = ground arith in
    ap (split (code sep)) (cons-append c w ((sep ∷ []) <> s)) ∙ rw (here, more) refl

-- Splitting undoes the join of words without the separator.
pub split-join :
    (sep : Char) (w : String) (ws : List String)
    → All (IsUnbroken (code sep)) (w ∷ ws)
    → split (code sep) (join (sep ∷ []) (w ∷ ws)) ≡ w ∷ ws
unfolding join
split-join sep w [] h = split-unbroken (code sep) w h.0
split-join sep w (v ∷ vs) h =
    split-append sep w (join (sep ∷ []) (v ∷ vs)) h.0 ∙ ap (λ t. w ∷ t) (split-join sep v vs h.1)
