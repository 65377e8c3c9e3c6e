-- ===== src/Sqlgen/Runs.antt =====
-- A step of the generator against a template: if it ends with no error then it began with none,
-- and it appended the template's text, numbered from where it stood, and the template's values.
use breezeorm.Prelude.{
  suc, ◌+◌, Bool, true, false, List, [], ◌∷◌, ◌++◌, none, length, if◌then◌else◌, ◌≡◌, refl, sym, ap,
  ◌∙◌, arith, length-append, append_assoc, append-nil, subst, fun_ext,
}
use breezeorm.Text.{Bytes}
use breezeorm.Query.{Value}
use breezeorm.Dialect.{Dialect}
use breezeorm.Sqlgen.{
  SqlGen, write, separated, check_raw_fragment, bind, quote_ident, write_ident, write_bind,
}
use breezeorm.Sqlgen.Template.{
  slot, inline, Template, values, fill, intact, intact-append, name, values-append, fill-append,
  separated_template, words, ident,
}

module _ (d : Dialect) where
  pub record Runs (t : Template) (f : SqlGen → SqlGen) : Type 0 where
    pub at :
        (g : SqlGen)
        → (f g).failed ≡ none
        → (g.failed ≡ none)
          × ((f g).buf ≡ g.buf ++ fill d (length g.params) t)
          × ((f g).params ≡ g.params ++ values t)
          × (intact d t ≡ true)

-- A quoted identifier that set no error was accepted.
pub quote_ident-accepted :
    (d : Dialect) (s : Bytes) (g : SqlGen)
    → (quote_ident d s g).1.failed ≡ none
    → (g.failed ≡ none)
      × (quote_ident d s g ≡ (d.quote_identifier s, g))
      × (d.validate_identifier s ≡ true)
unfolding quote_ident
quote_ident-accepted d s g h = ground arith

module _ {d : Dialect} where
  pub skip-Runs : Runs d [] (λ g. g)
  skip-Runs = record { at = λ g h. (h, sym (append-nil g.buf), sym (append-nil g.params), refl) }

  infixl 20 ◌▸◌
  -- One step after another: their templates, one after the other.
  pub ◌▸◌ :
      {t u : Template} {f h : SqlGen → SqlGen}
      → Runs d t f
      → Runs d u h
      → Runs d (t ++ u) (λ g. h (f g))
  ◌▸◌ {t} {u} {f} {h} p q = record {
    at = λ g e.
        let (e', b', a', i') = q.at (f g) e in
        let (e'', b'', a'', i'') = p.at g e' in
        let n : length (f g).params ≡ length g.params + length (values t) =
          ap length a'' ∙ length-append g.params (values t) in
        (
          e'',
          rw (b', b'', n, fill-append d (length g.params) t u, append_assoc),
          rw (a', a'', values-append t u, append_assoc),
          rw (intact-append d t u, i'', i'),
        );
  }

  pub when-Runs :
      (c : Bool) {t : Template} {f : SqlGen → SqlGen}
      → Runs d t f
      → Runs d (if c then [] else t) (λ g. if c then g else f g)
  when-Runs true p = skip-Runs
  when-Runs false p = p

  pub if-Runs :
      (c : Bool) {t u : Template} {f h : SqlGen → SqlGen}
      → Runs d t f
      → Runs d u h
      → Runs d (if c then t else u) (λ g. if c then f g else h g)
  if-Runs true p q = p
  if-Runs false p q = q

  pub write-Runs : (s : Bytes) → Runs d (words s) (write s)
  unfolding write
  write-Runs s = record { at = λ g e. (e, rw (append-nil s), sym (append-nil g.params), refl) }

  pub write_bind-Runs : (v : Value) → Runs d (slot v ∷ []) (write_bind d v)
  unfolding write_bind bind write
  write_bind-Runs v = record {
    at = λ g e.
        let n : length (g.params ++ (v ∷ [])) ≡ suc (length g.params) =
          omega (arith, length-append g.params (v ∷ [])) in
        (e, rw (n, append-nil (d.placeholder (suc (length g.params)))), refl, refl);
  }

  pub separated-Runs {ℓ} :
      {A : Type ℓ} (sep : Bytes) (tpl : A → Template) (f : A → SqlGen → SqlGen)
      → ((x : A) → Runs d (tpl x) (f x))
      → (xs : List A) → Runs d (separated_template sep tpl xs) (separated sep f xs)
  unfolding separated
  separated-Runs sep tpl f r [] = skip-Runs
  separated-Runs sep tpl f r (x ∷ []) = r x
  separated-Runs sep tpl f r (x ∷ y ∷ xs) =
      r x ▸ write-Runs sep ▸ separated-Runs sep tpl f r (y ∷ xs)

  -- Two writes in one.
  pub write_append-Runs :
      {t u : Template} (a b : Bytes)
      → Runs d t (write a)
      → Runs d u (write b)
      → Runs d (t ++ u) (write (a ++ b))
  unfolding write
  write_append-Runs {t} {u} a b p q =
      subst (Runs d (t ++ u))
        (fun_ext (λ g. ap (λ s. record g { buf = s }) (append_assoc g.buf a b))) (p ▸ q)

  -- A quoted name, where the name was accepted.
  pub write_name-Runs :
      (s : Bytes)
      → d.validate_identifier s ≡ true
      → Runs d (name s ∷ []) (write (d.quote_identifier s))
  unfolding write
  write_name-Runs s valid = record {
    at = λ g e. (e, rw (append-nil (d.quote_identifier s)), sym (append-nil g.params), rw valid);
  }

  pub write_ident-Runs : (s : Bytes) → Runs d (ident s) (write_ident d s)
  unfolding write_ident write
  write_ident-Runs s = record {
    at = λ g e.
        let (e', q, valid) = quote_ident-accepted d s g e in
        rw q ((write_name-Runs s valid).at g e');
  }

  pub raw_text-Runs :
      (s : Bytes) → Runs d (inline s [] ∷ []) (λ g. write s (check_raw_fragment s g))
  unfolding check_raw_fragment write
  raw_text-Runs s = record { at = λ g e. ground (arith, append-nil s, append-nil g.params) }
