-- ===== src/Models/Built/Metadata.antt =====
-- The types of the metadata that the usage builders write.
use mathlib.Core.Bool.{and-eq-true_iff}
use mathlib.Core.List.{[], ◌∷◌}
use mizan_client_sdks.Base.{
  String, ◌≡◌, refl, sym, Bool, true, false, Option, none, some, arith, inl, inr, ◌==◌,
  if◌then◌else◌, List,
}
use mizan_client_sdks.Python.Value.{
  Value, str, Fields, ok, Result-cases, ok-injective, get, get-put, put, has_key, contains,
}
use mizan_client_sdks.Python.Text.{strip}
use mizan_client_sdks.Python.Runtime.{Python}
use mizan_client_sdks.Builders.Facts.{is_blank, required_metadata_string}
use mizan_client_sdks.Builders.Metadata.{channels, all_keys, dict_of, stripped, provider_metadata}
use mizan_client_sdks.Builders.Usage.{put_fx_rule}
use mizan_client_sdks.Builders.Usage.Built.{attribution_of}
use mizan_client_sdks.Builders.Usage.Charge.{ChargeParts, given, keep_of}
use mizan_client_sdks.Vocabulary.Members.{values}
use mizan_client_sdks.Vocabulary.Usage.{channel_wire}
use mizan_client_sdks.Models.Shape.{
  closed, required, extend, keys, text, has_kind, has_entries, has_shape,
}
use mizan_client_sdks.Models.Laws.{
  accepts, promote, has_all, has_shape-put, has_shape-promote, has_shape-swap,
}
use mizan_client_sdks.Models.Metadata.{
  application_usage_metadata_shape, optional_conversation_attribution_shape,
  required_conversation_attribution_shape, optional_provider_attribution_shape,
  required_provider_attribution_shape, optional_provider_evidence_shape,
  required_pass_through_evidence_shape, optional_fx_evidence_shape, usage_metadata_shape,
  provider_usage_metadata_shape, conversation_usage_metadata_shape,
  pass_through_provider_usage_metadata_shape,
}
use mizan_client_sdks.Models.Built.Funding.{IsText, integer-IsText}

-- the metadata of a call, if there is one, is of the type `UsageMetadata`
abbrev pub has_usage_metadata : Option Fields → Bool
has_usage_metadata none = true
has_usage_metadata (some metadata) = has_shape usage_metadata_shape metadata

metadata_shapes : Unit {0}
unfolding extend keys contains accepts promote application_usage_metadata_shape
    optional_conversation_attribution_shape required_conversation_attribution_shape
    optional_provider_attribution_shape required_provider_attribution_shape
    optional_provider_evidence_shape required_pass_through_evidence_shape optional_fx_evidence_shape
    usage_metadata_shape provider_usage_metadata_shape conversation_usage_metadata_shape
    pass_through_provider_usage_metadata_shape
metadata_shapes = tt

dict_of-has_shape :
    (metadata : Option Fields)
    → has_usage_metadata metadata ≡ true
    → has_shape usage_metadata_shape (dict_of metadata) ≡ true
unfolding metadata_shapes has_kind has_entries all_keys get
dict_of-has_shape none h = refl
dict_of-has_shape (some metadata) h = h

put_text :
    (k s : String) (fs : Fields)
    → contains (keys usage_metadata_shape) k ≡ true
    → accepts usage_metadata_shape k (str s) ≡ true
    → has_shape usage_metadata_shape fs ≡ true
    → has_shape usage_metadata_shape (put k (str s) fs) ≡ true
put_text k s fs c a h = has_shape-put usage_metadata_shape k (str s) fs c a h

has_key-put :
    (k j : String) (v : Value) (fs : Fields)
    → has_key j (put k v fs) ≡ (if k == j then true else has_key j fs)
has_key-put k j v fs = ground (arith, get-put k j v fs)

module _ (py : Python) where
  filled-IsText : (v : Value) → is_blank py v ≡ false → IsText (stripped py v)
  unfolding is_blank
  filled-IsText (str s) h = (strip py.is_space s, refl)
  filled-IsText _ h = cc

  provider_parts :
      (provider provider_event_id : Value) (metadata : Option Fields) (r : Fields)
      → provider_metadata py provider provider_event_id metadata ≡ ok r
      → (is_blank py provider ≡ false) × (is_blank py provider_event_id ≡ false)
  unfolding provider_metadata
  provider_parts provider provider_event_id metadata r h = (ground arith, ground arith)

  -- attribution is of the type `UsageMetadata`, and has both its keys
  attributed :
      (provider provider_event_id : Value) (metadata : Option Fields) (r : Fields)
      → provider_metadata py provider provider_event_id metadata ≡ ok r
      → has_usage_metadata metadata ≡ true
      → (has_shape usage_metadata_shape r ≡ true)
        × (has_all ("provider" ∷ "provider_event_id" ∷ []) r ≡ true)
  unfolding metadata_shapes has_all has_kind
  attributed provider provider_event_id metadata r h m =
      let (a, b) = provider_parts provider provider_event_id metadata r h in
      let (s, i) = filled-IsText provider a in
      let (t, j) = filled-IsText provider_event_id b in
      let same = attribution_of py provider provider_event_id metadata r h in
      rw (same, i, j)
        (
          put_text "provider_event_id" t (put "provider" (str s) (dict_of metadata)) refl refl
              (put_text "provider" s (dict_of metadata) refl refl (dict_of-has_shape metadata m)),
          rw (has_key-put, has_key-put, has_key-put) refl,
        )

  pub provider_metadata-has_shape :
      (provider provider_event_id : Value) (metadata : Option Fields) (r : Fields)
      → provider_metadata py provider provider_event_id metadata ≡ ok r
      → has_usage_metadata metadata ≡ true
      → has_shape provider_usage_metadata_shape r ≡ true
  unfolding metadata_shapes
  provider_metadata-has_shape provider provider_event_id metadata r h m =
      let (shaped, all) = attributed provider provider_event_id metadata r h m in
      has_shape-promote ("provider" ∷ "provider_event_id" ∷ []) usage_metadata_shape r all shaped

  -- the keys that a pass-through charge adds
  abbrev evidence_keys : List String
  evidence_keys =
      "provider_invoice_id" ∷ "original_amount_minor" ∷ "original_currency" ∷ "tariff_version" ∷ []

  given-has_shape :
      (amount currency rate bill : String) (attribution : Fields)
      → has_shape usage_metadata_shape attribution ≡ true
      → has_shape usage_metadata_shape (given (str amount) currency rate bill attribution) ≡ true
  unfolding metadata_shapes given has_kind
  given-has_shape amount currency rate bill attribution h =
      put_text "tariff_version" rate _ refl refl (
        put_text "original_currency" currency _ refl refl (
          put_text "original_amount_minor" amount _ refl refl
            (put_text "provider_invoice_id" bill attribution refl refl h)))

  put_fx-has_shape :
      (fx : Value) (before evidence : Fields)
      → put_fx_rule py fx before ≡ ok evidence
      → has_shape usage_metadata_shape before ≡ true
      → has_shape usage_metadata_shape evidence ≡ true
  unfolding metadata_shapes put_fx_rule has_kind
  put_fx-has_shape Value.null before evidence e h = rw (sym (ok-injective e)) h
  put_fx-has_shape fx before evidence e h =
      elim (Result-cases (required_metadata_string py fx "fx_rule")) [
        | inl (rule, g) ↦
            let same : put "fx_rule" (str rule) before ≡ evidence = ground arith in
            rw (sym same) (put_text "fx_rule" rule before refl refl h)
        | inr (x, g) ↦ absurd (ground arith)
      ]

  has_key-given :
      (original : Value) (currency rate bill : String) (attribution : Fields) (j : String)
      → has_key j (given original currency rate bill attribution) ≡ (
          if "tariff_version" == j
          then true
          else if "original_currency" == j
          then true
          else if "original_amount_minor" == j
          then true
          else if "provider_invoice_id" == j
          then true
          else has_key j attribution)
  unfolding given
  has_key-given original currency rate bill attribution j =
      rw (has_key-put, has_key-put, has_key-put, has_key-put) refl

  kept :
      (fx : Value) (before evidence : Fields) (k : String)
      → put_fx_rule py fx before ≡ ok evidence
      → ("fx_rule" == k) ≡ false
      → has_key k before ≡ true
      → has_key k evidence ≡ true
  kept fx before evidence k e other h = ground (arith, keep_of py fx before evidence k e other)

  charge_evidence-has_all :
      (fx original : Value) (currency rate bill : String) (attribution evidence : Fields)
      → put_fx_rule py fx (given original currency rate bill attribution) ≡ ok evidence
      → has_all ("provider" ∷ "provider_event_id" ∷ []) attribution ≡ true
      → has_all ("provider" ∷ "provider_event_id" ∷ evidence_keys) evidence ≡ true
  unfolding has_all
  charge_evidence-has_all fx original currency rate bill attribution evidence e h =
      let before = given original currency rate bill attribution in
      let (p, q) = (and-eq-true_iff _ _).0 h in
      let (q', _) = (and-eq-true_iff _ _).0 q in
      let at : (k : String)
          → ("fx_rule" == k) ≡ false
          → has_key k before ≡ true
          → has_key k evidence ≡ true =
        λ k. kept fx before evidence k e in
      let a = at "provider" refl (rw has_key-given p) in
      let b = at "provider_event_id" refl (rw has_key-given q') in
      let c = at "provider_invoice_id" refl (rw has_key-given refl) in
      let d = at "original_amount_minor" refl (rw has_key-given refl) in
      let f = at "original_currency" refl (rw has_key-given refl) in
      let g = at "tariff_version" refl (rw has_key-given refl) in rw (a, b, c, d, f, g) refl

  swapped :
      (e : Fields)
      → has_shape
          (promote ("provider" ∷ "provider_event_id" ∷ evidence_keys) usage_metadata_shape)
          e
        ≡ true
      → has_shape pass_through_provider_usage_metadata_shape e ≡ true
  unfolding metadata_shapes
  swapped e h =
      has_shape-swap
        (extend application_usage_metadata_shape (
          extend optional_conversation_attribution_shape (
            extend required_provider_attribution_shape (
              required "provider_invoice_id" text (
                required "original_amount_minor" text
                  (required "original_currency" text closed))))))
        "fx_rule" "tariff_version" text text e h

  pub ChargeParts-has_shape :
      {s o provider provider_event_id amount original currency fx : Value}
      {metadata : Option Fields} {r : Fields}
      (p : ChargeParts py s o provider provider_event_id amount original currency fx metadata r)
      → has_usage_metadata metadata ≡ true
      → has_shape pass_through_provider_usage_metadata_shape p.evidence ≡ true
  ChargeParts-has_shape {provider} {provider_event_id} {original} {fx} {metadata} p m =
      let (shaped, all) =
        attributed provider provider_event_id metadata p.attribution p.attributed m in
      let (t, e) = integer-IsText py original _ _ p.invoiced in
      let before = given-has_shape t (py.upper p.trimmed) p.rate p.bill p.attribution shaped in
      let whole = put_fx-has_shape fx _ p.evidence p.put_rule (rw e before) in
      let present_keys =
        charge_evidence-has_all fx original (py.upper p.trimmed) p.rate p.bill p.attribution
          p.evidence p.put_rule all in
      swapped p.evidence (has_shape-promote _ usage_metadata_shape p.evidence present_keys whole)

  -- the metadata of a conversation
  pub conversation-has_shape :
      (channel conversation : String) (metadata : Option Fields)
      → contains channels channel ≡ true
      → has_usage_metadata metadata ≡ true
      → has_shape conversation_usage_metadata_shape (
          put "channel" (str channel) (put "conversation_id" (str conversation) (dict_of metadata)))
        ≡ true
  unfolding metadata_shapes has_kind has_all values channel_wire
  conversation-has_shape channel conversation metadata c m =
      has_shape-promote ("channel" ∷ "conversation_id" ∷ []) usage_metadata_shape _
        (rw (has_key-put, has_key-put, has_key-put) refl)
        (put_text "channel" channel _ refl (rw c refl) (
          put_text "conversation_id" conversation (dict_of metadata) refl refl
            (dict_of-has_shape metadata m)))
