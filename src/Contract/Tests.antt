-- ===== src/Contract/Tests.antt =====
-- The contract on small inputs.
use xrp_inteliggence_x.Base.{
  Result, if◌then◌else◌, is_empty, type_error, ap, append_under, ◌≡◌, refl, ◌↔◌, false, none, some,
  List, [], ◌∷◌, Memᴰ, lex_at_most, sort_by, lookup, insert, Str, str, ok, raise, collect, aware,
  utc, ambiguous_revision_error, value_error, pos, ◌++◌, naive, is_sha256, strip, after_prefix,
}
use xrp_inteliggence_x.Contract.Observation.{
  RawObservation, HistoricalObservation, AvailabilityPrecision, EligibilityClass, post_init,
  eligibility, eligibility_at, check_texts, check_fetch_id, optional_utc, check_revision,
  check_values, check_availability, classify, text, sha,
}
use xrp_inteliggence_x.Contract.Select.{
  series_key, rank_at, revision_rank, admitted, add_to_group, visit, group_from, higher, max_rank,
  smaller_id, min_by_id, with_rank, of_rank, disagree, pick, best_of, select_group, select_at,
  select_as_of,
}
use xrp_inteliggence_x.Contract.Eligibility.{
  IsWellFormed, IsReplayable, post_init-IsWellFormed, eligibility-strict_iff,
}
use xrp_inteliggence_x.Contract.Selection.{IsSelection, select_at-IsSelection}
use xrp_inteliggence_x.Contract.PointInTime.{Consistent, select_as_of-no_lookahead, select_at-total}

program : Unit {0}
unfolding post_init text sha strip after_prefix is_sha256 utc check_texts check_fetch_id
    optional_utc check_revision check_values check_availability classify eligibility eligibility_at
    series_key rank_at revision_rank admitted add_to_group append_under visit group_from higher
    max_rank smaller_id min_by_id with_rank of_rank disagree pick best_of select_group select_at
    select_as_of lex_at_most sort_by lookup insert collect
program = tt

abbrev digest : Str
digest = str "0123456789abcdef0123456789abcdef0123456789abcdef0123456789abcdef"

abbrev raw : RawObservation
raw = record {
  observation_id = str "o1";
  dataset = str "d";
  record_id = str "r";
  provider = str "p";
  source_id = str "s";
  symbol = str "XRP";
  instrument = str "spot";
  observed_at = aware 5;
  fetched_at = aware 20;
  fetch_id = str "fetch:sha256:" ++ digest;
  payload_sha256 = digest;
  values = some (str "{}");
  availability_precision = AvailabilityPrecision.exact;
  availability_policy = str "published";
  available_at = some (aware 10);
  available_date = none;
  revision_sequence = some (pos 1);
  reconstruction_basis_id = none;
}

abbrev first_revision : HistoricalObservation
first_revision = record {
  observation_id = str "o1";
  dataset = str "d";
  record_id = str "r";
  provider = str "p";
  source_id = str "s";
  symbol = str "XRP";
  instrument = str "spot";
  observed_at = 5;
  fetched_at = 20;
  fetch_id = str "fetch:sha256:" ++ digest;
  payload_sha256 = digest;
  values = str "{}";
  availability_precision = AvailabilityPrecision.exact;
  availability_policy = str "published";
  available_at = some 10;
  available_date = none;
  revision_sequence = some 1;
  reconstruction_basis_id = none;
}

-- A revision that is published at 30 and fetched at 40.
abbrev second_revision : HistoricalObservation
second_revision = record first_revision {
  observation_id = str "o2";
  fetched_at = 40;
  values = str "[]";
  available_at = some 30;
  revision_sequence = some 2;
}

abbrev contradiction : HistoricalObservation
contradiction = record first_revision { observation_id = str "o3"; values = str "[1]" }

-- A digest that exists unless there are no values.
abbrev content : HistoricalObservation → Result Str
content o = if is_empty o.values then raise type_error else ok o.values

post_init-raw : post_init raw ≡ ok first_revision
unfolding program
post_init-raw = refl

post_init-naive :
    post_init (record raw { fetched_at = naive 20 }) ≡ raise (value_error "fetched_at")
unfolding program
post_init-naive = refl

select_before :
    select_as_of content (first_revision ∷ second_revision ∷ []) (aware 35) false
    ≡ ok (first_revision ∷ [])
unfolding program
select_before = refl

select_after :
    select_as_of content (first_revision ∷ second_revision ∷ []) (aware 40) false
    ≡ ok (second_revision ∷ [])
unfolding program
select_after = refl

select_contradiction :
    select_as_of content (first_revision ∷ contradiction ∷ []) (aware 35) false
    ≡ raise (ambiguous_revision_error "equally ranked revisions disagree for series")
unfolding program
select_contradiction = refl

select_unhashable :
    select_as_of content (record first_revision { values = [] } ∷ []) (aware 35) false
    ≡ raise type_error
unfolding program
select_unhashable = refl

post_init-IsWellFormed_example : IsWellFormed first_revision
post_init-IsWellFormed_example = post_init-IsWellFormed raw post_init-raw

eligibility-strict_iff_example :
    (eligibility first_revision 20 ≡ EligibilityClass.strict_replay)
    ↔ IsReplayable first_revision 20
eligibility-strict_iff_example = eligibility-strict_iff first_revision 20

strict_at_20 : eligibility first_revision 20 ≡ EligibilityClass.strict_replay
unfolding program
strict_at_20 = refl

select_at_40 :
    select_at content 40 false (first_revision ∷ second_revision ∷ []) ≡ ok (second_revision ∷ [])
unfolding program
select_at_40 = refl

select_at-IsSelection_example :
    IsSelection 40 false (first_revision ∷ second_revision ∷ []) (second_revision ∷ [])
select_at-IsSelection_example =
    select_at-IsSelection content 40 false (first_revision ∷ second_revision ∷ []) select_at_40

select_as_of-no_lookahead_example :
    select_as_of content (first_revision ∷ second_revision ∷ []) (aware 35) false
    ≡ select_as_of content (first_revision ∷ []) (aware 35) false
select_as_of-no_lookahead_example =
    select_as_of-no_lookahead content 35 false (first_revision ∷ second_revision ∷ [])
      (first_revision ∷ []) refl

one_content : Consistent content 40 false (first_revision ∷ [])
one_content o p r (Memᴰ.head e) (Memᴰ.head f) _ _ _ = (str "{}", ap content e, ap content f)
one_content o p r (Memᴰ.head e) (Memᴰ.tail m) _ _ _ = elim m [ ]
one_content o p r (Memᴰ.tail m) n _ _ _ = elim m [ ]

select_at-total_example :
    (selected : List HistoricalObservation) × (select_at content 40 false (first_revision ∷ [])
      ≡ ok selected)
select_at-total_example =
    select_at-total content 40 false (first_revision ∷ []) (tt, tt) one_content
