-- ===== src/Tests/Clients.antt =====
-- A CPU miner's session: its authorization, and two submissions for a job.
use eacrpool.Prelude.{ℕ, ◌≡◌, refl, true, false, none, some, [], ◌∷◌, arith, ◌&&◌, if◌then◌else◌}
use eacrpool.Errors.{ok}
use eacrpool.Bytes.{
  Bytes, equal, less, hex_encode, hex_decode, from_hex_char, put_uint32_be, put_uint64_be,
}
use eacrpool.Text.{codes}
use eacrpool.Strings.{repeat}
use eacrpool.Bolt.{lookup}
use eacrpool.Ids.{nano_to_big_endian_bytes}
use eacrpool.Account.{Network}
use eacrpool.Db.{BucketName, share_bkt, fetch_bucket, same_name}
use eacrpool.Db.Records.{find, fetch_value, decoded}
use eacrpool.Job.{Job, fetch_job}
use eacrpool.Work.{fetch_accepted_work, new_accepted_work}
use eacrpool.Share.{new_share}
use eacrpool.Solved.{
  generate_solved_block_header, solved_header_text, solved_text, splice, overlay, reaches,
}
use eacrpool.ChainState.{BlockHeader}
use eacrpool.Difficulty.{DifficultyInfo, cpu_miner, name, share_weights, pos, above, of_int}
use eacrpool.Message.{
  Message, Request, response, request, request_message, check_method, as_array, as_text, at_index,
  received, decoded_texts,
}
use eacrpool.Message.Requests.{
  authorize_request, submit_work_request, parse_submit_work_request, text_at,
}
use eacrpool.Message.Responses.{submit_work_response}
use eacrpool.Client.{Chain, ClientConfig, Codecs, Times, Session, blank_client}
use eacrpool.Client.Authorize.{handle_authorize_request}
use eacrpool.Client.Authorize.Outcomes.{AuthorizeOutcome, handle_authorize_request_outcomes}
use eacrpool.Client.Submit.{
  handle_submit_work_request, solved_submission, hash_target, positive_target, submission_data,
}
use eacrpool.Client.Submit.Outcomes.{Effects, handle_submit_work_request-Effects}
use eacrpool.Client.Submit.Claims.{
  IsWorthShare, IsNewBlock, handle_submit_work_request_claims, handle_submit_work_request_accepts,
}
use eacrpool.Tests.Store.{store, insert}
use eacrpool.Tests.Codecs.{account_json, job_json, share_json, work_json, split, join, close}
use eacrpool.Tests.Fixtures.{pool, filled, only_jobs}
use eacrpool.Tests.Wire.{wire}

abbrev pub codecs : Codecs
codecs = record {
  account_json = account_json;
  share_json = share_json;
  job_json = job_json;
  work_json = work_json;
}

-- every block has the height nine
abbrev pub header : BlockHeader
header = record { height = 9; prev_block = 97 ∷ []; block_hash = 98 ∷ []; bits = 3; rest = [] }

-- the network's target is three, and the number of a hash is given
abbrev pub chain_of : ℕ → Chain
chain_of hash = record {
  from_bytes = λ b. some header;
  header_bytes = λ h. some (7 ∷ []);
  hash_to_big = λ h. hash;
  compact_to_big = λ n. pos n;
}

abbrev pub network : Network
network = record { is_address = λ a. true; blake256 = λ a. a }

abbrev pub info : DifficultyInfo
info = record {
  target = record { num = 20; den = 1 };
  difficulty = record { num = 2; den = 1 };
  pow_limit = record { num = 40; den = 1 };
}

abbrev pub cfg : ClientConfig
cfg = record {
  main_net = false;
  active_net = network;
  solo_pool = false;
  blake256_pad = [];
  miner = cpu_miner;
  difficulty_info = info;
  submit_work = λ s. ok true;
}

abbrev pub now : Times
now = record { seconds = 3; nanoseconds = 4 }

abbrev pub empty_session : Session store ℕ
empty_session = record {
  client = blank_client;
  db = some (pool (only_jobs []));
  sent = [];
  submitted = [];
}

abbrev rig : Request ℕ
rig = authorize_request (some 1) (codes "rig") (codes "Sx")

handle_authorize_request_outcomes_example :
    let (r, s') = handle_authorize_request cfg codecs now (received wire rig) true empty_session in
    AuthorizeOutcome cfg codecs now (received wire rig) true 1 empty_session r s'
unfolding received authorize_request
handle_authorize_request_outcomes_example =
    handle_authorize_request_outcomes cfg codecs now (received wire rig) true 1 empty_session refl

abbrev job : Job
job = record { uuid = 55 ∷ []; height = 9; header = repeat 48 304 }

abbrev mining : Session store ℕ
mining = record {
  client = record blank_client { account = 109 ∷ [] };
  db = some (pool (only_jobs ((job.uuid, job_json.marshal job) ∷ [])));
  sent = [];
  submitted = [];
}

abbrev field : Bytes
field = codes "00112233"

abbrev solution : Request ℕ
solution = received wire (submit_work_request (some 2) (codes "rig") job.uuid field field field)

handle_submit_work_request-Effects_example :
    Effects
      (chain_of 5)
      cfg
      codecs
      now
      solution
      true
      mining
      (handle_submit_work_request (chain_of 5) cfg codecs now solution true mining).1
handle_submit_work_request-Effects_example =
    handle_submit_work_request-Effects (chain_of 5) cfg codecs now solution true mining

solution_solved :
    (hash : ℕ) → solved_submission (chain_of hash) cfg codecs solution mining ≡ ok (header, 3)
unfolding solved_submission received submit_work_request decoded_texts parse_submit_work_request
    check_method as_array text_at at_index as_text equal fetch_job fetch_value decoded fetch_bucket
    lookup filled insert split join close generate_solved_block_header solved_header_text
    solved_text splice overlay reaches hex_decode from_hex_char positive_target repeat less
    eacrpool.Message.decoded_value name
solution_solved hash = refl

mining_worth :
    (hash : ℕ)
    → hash_target (chain_of hash) info header ≡ ok hash
    → above (of_int hash) info.target ≡ false
    → IsWorthShare (chain_of hash) cfg codecs now solution mining header 3 hash
unfolding filled fetch_bucket nano_to_big_endian_bytes put_uint64_be
mining_worth hash hashed below = record {
  pool_mode = refl;
  test_net = refl;
  solved = solution_solved hash;
  hashed = hashed;
  below = below;
  has_shares = (filled [], refl);
  fits = refl;
}

-- a hash between the network's target and the pool's
high_worth : IsWorthShare (chain_of 5) cfg codecs now solution mining header 3 5
unfolding hash_target above of_int
high_worth = mining_worth 5 refl refl

handle_submit_work_request_claims_example :
    let (r, s') = handle_submit_work_request (chain_of 5) cfg codecs now solution true mining in
    (r ≡ ok tt)
    × (s'.sent ≡ response (submit_work_response 2 true none) ∷ [])
    × ((m : BucketName) (j : Bytes)
        → find m j s'.db ≡ (
            if same_name share_bkt m && equal (nano_to_big_endian_bytes 4) j
            then some (share_json.marshal (new_share 4 (109 ∷ []) (share_weights cpu_miner)))
            else find m j mining.db))
unfolding received submit_work_request
handle_submit_work_request_claims_example =
    handle_submit_work_request_claims (chain_of 5) cfg codecs now solution mining header 3 5
      high_worth 2 refl (omega arith)

-- a hash within the network's target
low_worth : IsWorthShare (chain_of 2) cfg codecs now solution mining header 3 2
unfolding hash_target above of_int
low_worth = mining_worth 2 refl refl

new_block : IsNewBlock (chain_of 2) cfg codecs now solution mining header 3 2 low_worth (7 ∷ [])
unfolding filled fetch_bucket lookup new_accepted_work hex_encode put_uint32_be
new_block = record {
  within = omega arith;
  serialized = refl;
  accepted = refl;
  has_work = (filled [], refl);
  is_new = refl;
  work_fits = refl;
}

handle_submit_work_request_accepts_example :
    let (r, s') = handle_submit_work_request (chain_of 2) cfg codecs now solution true mining in
    let work = new_accepted_work 3 (98 ∷ []) (97 ∷ []) 9 (109 ∷ []) (name cpu_miner) in
    (r ≡ ok tt)
    × (s'.sent ≡ [])
    × (s'.submitted ≡ submission_data (7 ∷ []) [] ∷ [])
    × (fetch_accepted_work work_json work.uuid s'.db ≡ ok work)
    × (find share_bkt (nano_to_big_endian_bytes 4) s'.db
        ≡ some (share_json.marshal (new_share 4 (109 ∷ []) (share_weights cpu_miner))))
handle_submit_work_request_accepts_example =
    handle_submit_work_request_accepts (chain_of 2) cfg codecs now solution mining header 3 2
      low_worth (7 ∷ []) new_block
