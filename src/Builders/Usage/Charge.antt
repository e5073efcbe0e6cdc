-- ===== src/Builders/Usage/Charge.antt =====
-- The evidence that `other_provider_charge` builds on the foreign currency of a charge.
use mathlib.Core.Bool.{true≢false}
use mizan_client_sdks.Base.{
  ◌⊎◌, inl, inr, String, ◌≡◌, ◌≢◌, refl, sym, ap, ◌∙◌, inl, inr, Bool, true, false, not, ◌||◌,
  Option, some, arith, Bool-cases, ◌==◌, eq_iff, if◌then◌else◌,
}
use mizan_client_sdks.Python.Value.{
  Value, str, null, obj, Fields, end, field, ok, Result-cases, get, put, get-put,
}
use mizan_client_sdks.Python.Runtime.{Python}
use mizan_client_sdks.Builders.Facts.{event, integer, is_blank, required_metadata_string}
use mizan_client_sdks.Builders.Metadata.{provider_metadata}
use mizan_client_sdks.Builders.Usage.{is_currency, same_text, put_fx_rule, other_provider_charge}

-- the evidence of a charge of `original` in a foreign currency, of `amount` in SAR
pub record ChargeEvidence (original amount : Value) (evidence : Fields) : Type 0 where
  pub currency : String
  pub currency_lem : get "original_currency" evidence ≡ some (str currency)
  pub supported : is_currency currency ≡ true
  pub amount_lem : get "original_amount_minor" evidence ≡ some original
  pub settled :
      ((currency ≡ "SAR") × (s : String) × (original ≡ str s) × (amount ≡ str s))
      ⊎ ((currency ≢ "SAR") × (rule : String) × (get "fx_rule" evidence ≡ some (str rule)))

same_text-eq : (v w : Value) → same_text v w ≡ true → (s : String) × (v ≡ str s) × (w ≡ str s)
same_text-eq (str s) (str t) h = (s, refl, ap str (sym ((eq_iff s t).0 h)))
same_text-eq (str s) _ h = absurd (cc h)
same_text-eq _ _ h = absurd (cc h)

taken : (a b : Bool) → (not a || b) ≡ true → a ≡ true → b ≡ true
taken a b h e = ground arith

filled : (a b : Bool) → (a || not b) ≡ true → a ≡ false → b ≡ false
filled a b h e = ground arith

-- what the evidence holds before the rule is written
unfoldable pub given : Value → String → String → String → Fields → Fields
given original currency rate bill attribution = put "tariff_version" (str rate) (
    put "original_currency" (str currency)
      (put "original_amount_minor" original (put "provider_invoice_id" (str bill) attribution)))

module _ (py : Python) where
  -- What a charge went through, and what its checks found.
  pub record ChargeParts (s o provider provider_event_id amount original currency fx : Value)
      (metadata : Option Fields) (r : Fields) : Type 0 where
    pub trimmed : String
    pub attribution : Fields
    pub bill : String
    pub rate : String
    pub evidence : Fields
    pub happened : event py s o ≡ ok tt
    pub settled : integer py amount "provider_amount_minor" true ≡ ok tt
    pub invoiced : integer py original "original_amount_minor" true ≡ ok tt
    pub currency_lem : required_metadata_string py currency "original_currency" ≡ ok trimmed
    pub supported : is_currency (py.upper trimmed) ≡ true
    pub same : (not (py.upper trimmed == "SAR") || same_text original amount) ≡ true
    pub ruled : ((py.upper trimmed == "SAR") || not (is_blank py fx)) ≡ true
    pub attributed : provider_metadata py provider provider_event_id metadata ≡ ok attribution
    pub put_rule :
        put_fx_rule py fx (given original (py.upper trimmed) rate bill attribution) ≡ ok evidence
    pub built :
        r
        ≡ field "source_event_id" s (
            field "occurred_at" o (
              field "feature_code"
                (str "other_provider_charge")
                (field "provider_amount_minor" amount (field "metadata" (obj evidence) end))))

  pub charge_parts :
      (s o provider provider_event_id amount invoice original currency tariff fx : Value)
      (metadata : Option Fields) (r : Fields)
      → other_provider_charge py s o provider provider_event_id amount invoice original currency
          tariff fx metadata
        ≡ ok r
      → ChargeParts s o provider provider_event_id amount original currency fx metadata r
  unfolding other_provider_charge given
  charge_parts s o provider provider_event_id amount invoice original currency tariff fx metadata r
        h =
      elim (Result-cases (required_metadata_string py currency "original_currency")) [
        | inr (x, e) ↦ absurd (ground arith)
        | inl (trimmed, e) ↦
            elim (Result-cases (provider_metadata py provider provider_event_id metadata)) [
              | inr (x, f) ↦ absurd (ground arith)
              | inl (attribution, f) ↦
                  elim (Result-cases (required_metadata_string py invoice "provider_invoice_id")) [
                    | inr (x, g) ↦ absurd (ground arith)
                    | inl (bill, g) ↦
                        elim (Result-cases (required_metadata_string py tariff "tariff_version")) [
                          | inr (x, i) ↦ absurd (ground arith)
                          | inl (rate, i) ↦
                              elim (Result-cases (
                                put_fx_rule py fx
                                  (given original (py.upper trimmed) rate bill attribution))) [
                                    | inr (x, j) ↦ absurd (ground arith)
                                    | inl (evidence, j) ↦ record {
                                      trimmed = trimmed;
                                      attribution = attribution;
                                      bill = bill;
                                      rate = rate;
                                      evidence = evidence;
                                      happened = ground arith;
                                      settled = ground arith;
                                      invoiced = ground arith;
                                      currency_lem = e;
                                      supported = ground arith;
                                      same = ground arith;
                                      ruled = ground arith;
                                      attributed = f;
                                      put_rule = j;
                                      built = ground arith;
                                    }
                                  ]
                        ]
                  ]
            ]
      ]

  -- a rule that is given is trimmed and written into the evidence, which is otherwise kept
  pub put_of :
      (fx : Value) (given evidence : Fields)
      → put_fx_rule py fx given ≡ ok evidence
      → is_blank py fx ≡ false
      → (rule : String) × (evidence ≡ put "fx_rule" (str rule) given)
        × (required_metadata_string py fx "fx_rule" ≡ ok rule)
  unfolding put_fx_rule is_blank
  put_of (str t) given evidence h b =
      elim (Result-cases (required_metadata_string py (str t) "fx_rule")) [
        | inl (rule, e) ↦ (rule, ground arith, e)
        | inr (x, e) ↦ absurd (ground arith)
      ]
  put_of _ given evidence h b = absurd (cc b)

  pub keep_of :
      (fx : Value) (given evidence : Fields) (k : String)
      → put_fx_rule py fx given ≡ ok evidence
      → ("fx_rule" == k) ≡ false
      → get k evidence ≡ get k given
  unfolding put_fx_rule
  keep_of null given evidence k h b = ground arith
  keep_of fx given evidence k h b = elim (Result-cases (required_metadata_string py fx "fx_rule")) [
    | inl (rule, e) ↦
        let same : put "fx_rule" (str rule) given ≡ evidence = ground arith in
        sym (ap (get k) same)
        ∙ get-put "fx_rule" k (str rule) given
        ∙ ap (λ t. if t then some (str rule) else get k given) b
    | inr (x, e) ↦ ground arith
  ]

  get-given :
      (original : Value) (currency rate bill : String) (attribution : Fields)
      → (get "original_currency" (given original currency rate bill attribution)
          ≡ some (str currency))
        × (get "original_amount_minor" (given original currency rate bill attribution)
            ≡ some original)
  unfolding given
  get-given original currency rate bill attribution =
      (rw (get-put, get-put) refl, rw (get-put, get-put, get-put) refl)

  -- A charge that is built carries evidence of a three-letter currency and the original amount; in
  -- SAR both amounts are the same text, and in any other currency the evidence names the exchange
  -- rule.
  pub other_provider_charge-ChargeEvidence :
      (s o provider provider_event_id amount invoice original currency tariff fx : Value)
      (metadata : Option Fields) (r : Fields)
      → other_provider_charge py s o provider provider_event_id amount invoice original currency
          tariff fx metadata
        ≡ ok r
      → (evidence : Fields) × (get "metadata" r ≡ some (obj evidence))
        × ChargeEvidence original amount evidence
  unfolding given get
  other_provider_charge-ChargeEvidence s o provider provider_event_id amount invoice original
        currency tariff fx metadata r h =
      let parts =
        charge_parts s o provider provider_event_id amount invoice original currency tariff fx
          metadata r h in
      let trimmed = parts.trimmed in
      let evidence = parts.evidence in
      let attribution = parts.attribution in
      let bill = parts.bill in
      let rate = parts.rate in
      let put_rule = parts.put_rule in
      let before = given original (py.upper trimmed) rate bill attribution in
      let (c, a) = get-given original (py.upper trimmed) rate bill attribution in
      (
        evidence,
        rw parts.built refl,
        record {
          currency = py.upper trimmed;
          currency_lem = keep_of fx before evidence "original_currency" put_rule refl ∙ c;
          supported = parts.supported;
          amount_lem = keep_of fx before evidence "original_amount_minor" put_rule refl ∙ a;
          settled = elim (Bool-cases (py.upper trimmed == "SAR")) [
            | inl sar ↦
                let (t, before_lem, after_lem) =
                  same_text-eq original amount (
                    taken (py.upper trimmed == "SAR") (same_text original amount) parts.same sar) in
                inl ((eq_iff _ _).0 sar, t, before_lem, after_lem)
            | inr foreign ↦
                let (rule, p, q) =
                  put_of fx before evidence put_rule
                    (filled (py.upper trimmed == "SAR") (is_blank py fx) parts.ruled foreign) in
                inr (
                  λ e. true≢false (sym ((eq_iff _ _).1 e) ∙ foreign),
                  rule,
                  ap (get "fx_rule") p ∙ get-put "fx_rule" "fx_rule" (str rule) before,
                )
          ];
        },
      )
