-- ===== src/Accessors/Reading.antt =====
-- What reading arguments yields, for the results of calls, events and invocations alike.
use Prim.Native.String.{◌++◌ as append_text}
use text.Mathlib.Text.{◌==◌ as str_eq}
use text.Mathlib.TextEquality.{eq_iff}
use autobahn_cpp_aw.Common.{
  ◌⊎◌, inl, inr, ℕ, zero, suc, ◌<◌, ◌≤◌, String, false, ◌&&◌, Option, some, List, [], ◌∷◌, ◌++◌,
  ◌≡◌, ◌≢◌, refl, arith, length, get_elem?,
}
use autobahn_cpp_aw.Exception.{
  Result, ok, err, out_of_range, type_error, unknown_exception, or_throw,
}
use autobahn_cpp_aw.Msgpack.{Msgpack, Object, type_of, same_type, str_type, map_type}
use autobahn_cpp_aw.Arguments.{find_key}
use autobahn_cpp_aw.Arguments.Access.{entry, entry_or, entry_or_throw}
use autobahn_cpp_aw.Promise.{CallResult}
use autobahn_cpp_aw.Client.{Event}
use autobahn_cpp_aw.Invocation.{Invocation}
use autobahn_cpp_aw.Accessors.Results as Results
use autobahn_cpp_aw.Accessors.Events as Events
use autobahn_cpp_aw.Accessors.Invocations as Invocations

get_elem?-within {ℓ} :
    {A : Type ℓ} (xs : List A) (i : ℕ) → i < length xs → (a : A) × (get_elem? xs i ≡ some a)
get_elem?-within [] i h = absurd (omega arith)
get_elem?-within (x ∷ xs) zero h = (x, refl)
get_elem?-within (x ∷ xs) (suc i) h = get_elem?-within xs i (omega arith)

below_or_not : (i n : ℕ) → (i < n) ⊎ (n ≤ i)
below_or_not i n = ground arith

module _ ⦃m : Msgpack⦄ {T : Type 0} (convert : Object → Option T) where
  -- Positional arguments of a call's result, on every index: below the number of arguments the
  -- element there is converted, and from that number on, which is 0 where there is no array,
  -- `out_of_range` names the index.
  argument-bounds :
      (lexical_cast : ℕ → String) (r : CallResult) (index : ℕ)
      → ((index < Results.number_of_arguments r)
          × (e : Object) × (get_elem? (m.array_elements r.arguments) index ≡ some e)
          × (Results.argument convert lexical_cast r index ≡ or_throw (convert e) type_error))
        ⊎ ((Results.number_of_arguments r ≤ index)
            × (Results.argument convert lexical_cast r index
                ≡ err (out_of_range (append_text "no argument at index " (lexical_cast index)))))
  unfolding Results.number_of_arguments Results.argument
  argument-bounds lexical_cast r index = elim (below_or_not index (Results.number_of_arguments r)) [
    | inl within ↦
        let there = get_elem?-within (m.array_elements r.arguments) index (ground arith) in
        inl (within, there.0, there.1, ground (arith, there.1))
    | inr beyond ↦ inr (beyond, ground arith)
  ]

  -- the look-ups of one argument compared
  abbrev pub Agrees : Result T → Result T → Result T → T → String → Type 0
  Agrees found or chars fallback key =
      let missing : Result T =
        err (out_of_range (append_text key " keyword argument doesn't exist")) in
      ((found ≡ missing) × (or ≡ ok fallback) × (chars ≡ err unknown_exception))
      ⊎ ((found ≢ missing) × (or ≡ found) × (chars ≡ found))

  entry-Agrees :
      (o : Object) (key : String) (fallback : T)
      → Agrees
          (entry convert o key)
          (entry_or convert o key fallback)
          (entry_or_throw convert o key fallback)
          fallback
          key
  unfolding entry entry_or entry_or_throw
  entry-Agrees o key fallback = ground arith

  -- Where the keyword argument of a result or an event is missing, `kw_argument_or` with a
  -- `std::string` yields the fallback and with a `const char*` raises; everywhere else both do what
  -- `kw_argument` does. Those of an invocation agree with each other always.
  pub kw_argument_or-kw_argument :
      (r : CallResult) (e : Event) (i : Invocation) (key : String) (fallback : T)
      → Agrees
          (Results.kw_argument convert r key)
          (Results.kw_argument_or convert r key fallback)
          (Results.kw_argument_or_chars convert r key fallback)
          fallback
          key
        × Agrees
            (Events.kw_argument convert e key)
            (Events.kw_argument_or convert e key fallback)
            (Events.kw_argument_or_chars convert e key fallback)
            fallback
            key
        × (Invocations.kw_argument_or_chars convert i key fallback
            ≡ Invocations.kw_argument_or convert i key fallback)
  unfolding Results.kw_argument Results.kw_argument_or Results.kw_argument_or_chars
      Events.kw_argument Events.kw_argument_or Events.kw_argument_or_chars
      Invocations.kw_argument_or Invocations.kw_argument_or_chars
  kw_argument_or-kw_argument r e i key fallback =
      (entry-Agrees r.kw_arguments key fallback, entry-Agrees e.kw_arguments key fallback, refl)

  -- no entry has this text as its key
  abbrev pub Lacks : String → List (Object × Object) → Type 0
  Lacks key [] = Unit {0}
  Lacks key ((k, v) ∷ rest) =
      ((same_type (type_of k) str_type && str_eq key (m.str_text k)) ≡ false) × Lacks key rest

  find_key-first :
      (key : String) (before after : List (Object × Object)) (k v : Object)
      → Lacks key before
      → type_of k ≡ str_type
      → m.str_text k ≡ key
      → find_key key (before ++ (k, v) ∷ after) ≡ some v
  unfolding find_key
  find_key-first key [] after k v none_before t e = ground (arith, eq_iff key (m.str_text k))
  find_key-first key ((j, u) ∷ before) after k v none_before t e =
      ground (arith, find_key-first key before after k v)

  -- A keyword argument is the value of the first entry with its name, whatever other entries and
  -- keys of other types stand around it.
  kw_argument-first :
      (r : CallResult) (key : String) (before after : List (Object × Object)) (k v : Object)
      → type_of r.kw_arguments ≡ map_type
      → m.map_entries r.kw_arguments ≡ before ++ (k, v) ∷ after
      → Lacks key before
      → type_of k ≡ str_type
      → m.str_text k ≡ key
      → Results.kw_argument convert r key ≡ or_throw (convert v) type_error
  unfolding Results.kw_argument
  kw_argument-first r key before after k v is_map has lacks t e =
      ground (arith, find_key-first key before after k v)
