-- ===== src/Store/DocumentStore/Put/Gets.antt =====
-- Get after InternalPut, icing/store/document-store.cc, with the keys of MakeFingerprint.
use external_icing.Base.{
  ℕ, ◌≡◌, refl, ap, sym, ◌∙◌, Bool, true, false, Option, none, some, leb, if◌then◌else◌, ◌++◌,
  subst,
}
use external_icing.Store.{StatusOr, value, error, not_found, Text, text_eq, text_eq_iff, lift}
use external_icing.Store.DocumentStore.{
  Document, DocumentStore, Environment, make_fingerprint, encode_fingerprint,
  calculate_expiration_timestamp_ms, clear_if, clear_internal, get,
}
use external_icing.Store.DocumentStore.View.{lookup, IsSound, found, get_lem}
use external_icing.Store.DocumentStore.Put.{
  put_document, put, internal_put, with_creation_time, with_length,
}
use external_icing.Store.DocumentStore.Put.Indexed.{Fits}
use external_icing.Store.DocumentStore.Put.Replaces.{Puts, put_document_lem}
use external_icing.Store.DocumentStore.Steps.{bind_ok}

-- What Get gives of a document that was put, until it expires.
abbrev pub put_and_found : ℕ → Document → StatusOr Document
put_and_found now document =
    if leb (calculate_expiration_timestamp_ms document.creation_timestamp_ms document.ttl_ms) now
    then error not_found
    else value (clear_if true document)

found_if :
    (b c : Bool) (d : Document) (o : Option Document)
    → clear_internal true (found (if b then (if c then none else some d) else o)) ≡ (
        if b
        then (if c then error not_found else value (clear_if true d))
        else clear_internal true (found o))
found_if true true d o = refl
found_if true false d o = refl
found_if false c d o = refl

-- Get of any namespace and uri after a document that fits was put: under its key the new document
-- until it expires, and under every other key what was there.
pub get-put_document :
    (env : Environment) (s : DocumentStore) (now later : ℕ) (document : Document)
    (name_space uri : Text) (clear : Bool)
    → IsSound s
    → Fits env s document
    → get env (put_document env now document s).1 later name_space uri clear ≡ (
        if text_eq
          (make_fingerprint env document.name_space document.uri)
          (make_fingerprint env name_space uri)
        then put_and_found later document
        else get env s later name_space uri clear)
get-put_document env s now later document name_space uri clear sound fits =
    let (done, is_sound, shows) = put_document_lem env s now document sound fits in
    let s' = (put_document env now document s).1 in
    let key = make_fingerprint env document.name_space document.uri in
    let other = make_fingerprint env name_space uri in
    let past =
      leb (calculate_expiration_timestamp_ms document.creation_timestamp_ms document.ttl_ms)
        later in
    get_lem env s' later name_space uri clear is_sound
    ∙ ap (λ (o : Option Document). clear_internal true (found o)) (shows later other)
    ∙ found_if (text_eq key other) past document (lookup s later other)
    ∙ ap (λ (r : StatusOr Document). if text_eq key other then put_and_found later document else r)
        (sym (get_lem env s later name_space uri clear sound))

-- After a document that fits was put, Get of any namespace and uri that are the same as the document's
-- when they are joined gives this document, until it expires.
pub get-put_document_collision :
    (env : Environment) (s : DocumentStore) (now later : ℕ) (document : Document)
    (name_space uri : Text) (clear : Bool)
    → IsSound s
    → Fits env s document
    → document.name_space ++ document.uri ≡ name_space ++ uri
    → leb (calculate_expiration_timestamp_ms document.creation_timestamp_ms document.ttl_ms) later
      ≡ false
    → get env (put_document env now document s).1 later name_space uri clear
      ≡ value (clear_if true document)
unfolding make_fingerprint
get-put_document_collision env s now later document name_space uri clear sound fits joined alive =
    let same : text_eq (make_fingerprint env document.name_space document.uri)
          (make_fingerprint env name_space uri)
        ≡ true =
      (text_eq_iff (make_fingerprint env document.name_space document.uri)
          (make_fingerprint env name_space uri)).1
        (ap (λ (t : Text). encode_fingerprint 10 (env.fingerprint64 t)) joined) in
    get-put_document env s now later document name_space uri clear sound fits
    ∙ ap
        (λ (b : Bool).
          if b then put_and_found later document else get env s later name_space uri clear)
        same
    ∙ ap (λ (b : Bool). if b then error not_found else value (clear_if true document)) alive

-- Put of a document that the validator accepts and that, with its creation time and its length, fits
-- in a sound store: it gives the next id, the store stays sound, the document's key shows the document
-- until it expires, and every other key shows what it did.
pub put_lem :
    (env : Environment) (s : DocumentStore) (now num_tokens : ℕ) (document : Document)
    → env.validate (with_length num_tokens document) ≡ value tt
    → IsSound s
    → Fits env s (with_creation_time now (with_length num_tokens document))
    → Puts env s
        (with_creation_time now (with_length num_tokens document))
        (put env now document num_tokens s)
unfolding put internal_put
put_lem env s now num_tokens document accepted sound fits =
    let counted : Document = with_length num_tokens document in
    subst (λ (r : StatusOr ℕ × DocumentStore). Puts env s (with_creation_time now counted) r)
      (sym (
        bind_ok (lift (env.validate counted))
          (λ _. put_document env now (with_creation_time now counted)) s
          (ap (λ (r : StatusOr (Unit {0})). (r, s)) accepted)))
      (put_document_lem env s now (with_creation_time now counted) sound fits)
