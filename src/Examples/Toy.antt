-- ===== src/Examples/Toy.antt =====
-- A small instance of what the crates provide: four shreds to a slot, payloads of one byte, headers
-- of numbers.
use shredstream_proxy.Common.{
  ℕ, zero, suc, ◌≡◌, refl, subst, ◌⊎◌, ◌↔◌, Bool, true, false, ◌&&◌, Option, none, some, List, [],
  ◌∷◌, ◌++◌, All, length, ltb, ◌==◌, if◌then◌else◌, ltb→lt, Bool-cases, inl, inr, arith,
}
use shredstream_proxy.Ledger.{
  Ledger, EqLaws, ShredType, data_type, code_type, merkle_code, Shred, shred_code, shred_data,
  IsSane,
}
use shredstream_proxy.Tracker.{ShredsStateTracker, unknown, not_data_complete, data_complete}
use shredstream_proxy.Tracker.{status, shred_at}
use shredstream_proxy.Tracker.Invariant.{Agrees, IsValid}
use shredstream_proxy.Reconstruct.{Codec, CodecLaws, IfSome, Slots, SlotsValid}
use shredstream_proxy.Metrics.{ShredMetrics, new}
use shredstream_proxy.Forwarder.{Wire, Env, sent}

pub record ToyCommon : Type 0 where
  pub slot : ℕ
  pub index : ℕ
  pub fec : ℕ
  pub is_code : Bool

abbrev same_bool : Bool → Bool → Bool
same_bool true b = b
same_bool false true = false
same_bool false false = true

abbrev same_common : ToyCommon → ToyCommon → Bool
same_common a b =
    a.slot == b.slot && a.index == b.index && a.fec == b.fec && same_bool a.is_code b.is_code

abbrev type_of_bool : Bool → ShredType
type_of_bool true = code_type
type_of_bool false = data_type

abbrev pub toy : Ledger
toy = record {
  CommonHeader = ToyCommon;
  CodingHeader = ℕ × ℕ;
  DataHeader = ℕ;
  common_eq = same_common;
  coding_eq = λ a b. a.0 == b.0 && a.1 == b.1;
  data_eq = λ a b. a == b;
  slot = λ h. h.slot;
  index = λ h. h.index;
  fec_set_index = λ h. h.fec;
  shred_type = λ h. type_of_bool h.is_code;
  shred_variant = λ h. merkle_code 0 false;
  num_data_shreds = λ h. h.0;
  num_coding_shreds = λ h. h.1;
  data_complete = λ h. h == 1;
  last_in_slot = λ h. h == 2;
  get_data = λ b. some b;
  type_byte = λ t. 0;
  max_data_shreds_per_slot = 4;
  max_processing_age = 1;
  size_of_payload = 1;
  size_of_merkle_proof_entry = 20;
  size_of_signature = 64;
}

same_bool_iff : (a b : Bool) → (same_bool a b ≡ true) ↔ (a ≡ b)
same_bool_iff true true = (λ h. refl, λ h. refl)
same_bool_iff true false = (λ h. cc, λ h. cc)
same_bool_iff false true = (λ h. cc, λ h. cc)
same_bool_iff false false = (λ h. refl, λ h. refl)

same_common_iff : (a b : ToyCommon) → (same_common a b ≡ true) ↔ (a ≡ b)
same_common_iff a b = ground (arith, same_bool_iff a.is_code b.is_code)

pub toy_laws : EqLaws toy
toy_laws = record {
  common_iff = same_common_iff;
  coding_iff = λ a b. ground arith;
  data_iff = λ a b. ground arith;
}

-- A data shred of slot 5 and FEC set 0.
abbrev pub toy_data : ℕ → ℕ → Shred toy
toy_data index flag = shred_data (record {
  common_header = record { slot = 5; index = index; fec = 0; is_code = false };
  data_header = flag;
  payload = 9 ∷ [];
})

abbrev pub toy_code : Shred toy
toy_code = shred_code (record {
  common_header = record { slot = 5; index = 0; fec = 0; is_code = true };
  coding_header = (2, 2);
  payload = 7 ∷ [];
})

pub toy_data-IsSane : (index flag : ℕ) → ltb index 4 ≡ true → IsSane (toy_data index flag)
toy_data-IsSane index flag h = record {
  index_lt = ltb→lt index 4 h;
  fec_lt = omega arith;
  fits = refl;
}

toy_code-IsSane : IsSane toy_code
toy_code-IsSane = record { index_lt = omega arith; fec_lt = omega arith; fits = (refl, refl) }

-- Two bytes are a data shred's index and flag.
abbrev toy_parse : List ℕ → Option (Shred toy)
toy_parse [] = none
toy_parse (index ∷ []) = none
toy_parse (index ∷ flag ∷ []) = if ltb index 4 then some (toy_data index flag) else none
toy_parse (index ∷ flag ∷ x ∷ rest) = none

abbrev flatten : List (List ℕ) → List ℕ
flatten [] = []
flatten (b ∷ rest) = b ++ flatten rest

abbrev pub toy_codec : Codec toy
toy_codec = record {
  Packet = List ℕ;
  Entry = ℕ;
  bytes = λ p. some p;
  parse = toy_parse;
  recover = λ shreds. some (some (toy_data 1 1) ∷ none ∷ []);
  deshred = λ payloads. some (flatten payloads);
  deserialize = λ b. some b;
  txn_len = λ e. e;
}

toy_parse-IsSane : (b : List ℕ) (s : Shred toy) → toy_parse b ≡ some s → IsSane s
toy_parse-IsSane [] s e = cc
toy_parse-IsSane (index ∷ []) s e = cc
toy_parse-IsSane (index ∷ flag ∷ []) s e = by_bound (Bool-cases (ltb index 4))
  where
    some_eq : {x : Shred toy} → ◌≡◌ {A = Option (Shred toy)} (some x) (some s) → x ≡ s
    some_eq h = cc

    by_bound : ((ltb index 4 ≡ true) ⊎ (ltb index 4 ≡ false)) → IsSane s
    by_bound (inl h) = subst IsSane (some_eq (ground arith)) (toy_data-IsSane index flag h)
    by_bound (inr h) = absurd (ground arith)
toy_parse-IsSane (index ∷ flag ∷ x ∷ rest) s e = cc

pub toy_codec_laws : CodecLaws toy_codec
toy_codec_laws = record {
  parse-IsSane = toy_parse-IsSane;
  recover-IsSane =
      λ xs ys h e. subst (All (IfSome IsSane)) (unsome e) (toy_data-IsSane 1 1 refl, (tt, tt));
}
  where
    unsome : {A : Type 0} {x y : A} → ◌≡◌ {A = Option A} (some x) (some y) → x ≡ y
    unsome h = cc

-- A tracker where shreds 0 and 1 are a complete segment and shred 2 begins another one.
abbrev pub toy_tracker : ShredsStateTracker toy
toy_tracker = record {
  data_status = not_data_complete ∷ data_complete ∷ not_data_complete ∷ unknown ∷ [];
  data_shreds = some (toy_data 0 0) ∷ some (toy_data 1 1) ∷ some (toy_data 2 0) ∷ none ∷ [];
  already_recovered_fec_sets = false ∷ false ∷ false ∷ false ∷ [];
  already_deshredded = false ∷ false ∷ false ∷ false ∷ [];
}

toy_tracker-Agrees : (k : ℕ) → Agrees (shred_at toy_tracker k) k (status toy_tracker k)
toy_tracker-Agrees zero = (refl, refl, toy_data-IsSane 0 0 refl)
toy_tracker-Agrees (suc zero) = (refl, refl, toy_data-IsSane 1 1 refl)
toy_tracker-Agrees (suc (suc zero)) = (refl, refl, toy_data-IsSane 2 0 refl)
toy_tracker-Agrees (suc (suc (suc zero))) = refl
toy_tracker-Agrees (suc (suc (suc (suc k)))) = refl

pub toy_tracker-IsValid : IsValid toy_tracker
toy_tracker-IsValid = record {
  status_length = refl;
  shreds_length = refl;
  recovered_length = refl;
  deshredded_length = refl;
  agrees = toy_tracker-Agrees;
}

-- Slot 5 with that tracker and FEC set 0.
abbrev pub toy_slots : Slots toy
toy_slots =
    (
      5,
      record {
        fec_sets = (0, toy_data 0 0 ∷ toy_data 1 1 ∷ toy_code ∷ []) ∷ [];
        tracker = toy_tracker;
      },
    )
    ∷ []

pub toy_slots-SlotsValid : SlotsValid toy_slots
toy_slots-SlotsValid = (
  record {
    fec_sets_valid = (
      (omega arith, (toy_data-IsSane 0 0 refl, (toy_data-IsSane 1 1 refl, (toy_code-IsSane, tt)))),
      tt,
    );
    tracker_valid = toy_tracker-IsValid;
  },
  tt,
)

-- A deduper that counts, and drops nothing.
abbrev pub toy_wire : Wire
toy_wire = record {
  Packet = List ℕ;
  Deduper = ℕ;
  Timestamp = ℕ;
  addr = λ p. length p;
  discard = λ p. false;
  bytes = λ p. some p;
  dedup = λ d batch. (suc d, batch, 1);
  decode_trace = λ b. some (some 3, 4);
  system_time = λ t. some t;
  max_iov = 1024;
}

abbrev pub toy_env : Env
toy_env = record {
  batch_send = λ dest packets. sent;
  now_usecs = 10;
  dedup_usecs = 1;
  send_usecs = λ dest. 2;
}

abbrev pub no_metrics : ShredMetrics
no_metrics = new true

-- Shreds 0 and 1 of slot 5, and bytes that do not parse.
abbrev pub toy_batch : List (List ℕ)
toy_batch = (0 ∷ 0 ∷ []) ∷ (1 ∷ 1 ∷ []) ∷ (3 ∷ []) ∷ []
