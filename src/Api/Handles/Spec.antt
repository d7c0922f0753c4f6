-- ===== src/Api/Handles/Spec.antt =====
-- What the calls on handles promise: a table from a handle to its transform, where an entry point
-- serves one type of transform, and one direction or the one that the caller names.
use flag_fft.Prelude.{ℕ, Option, none, some, Bool, true, false, ◌||◌, ◌==◌, when◌then◌else◌}
use flag_fft.Base.{FftRequest}
use flag_fft.Api.Ints.{ℤ, same_int}
use flag_fft.Api.{
  FftType, c2c, r2c, c2r, z2z, d2z, z2d, ApiResult, success, invalid_plan, invalid_value,
  invalid_type, PlanDesc, is_real_forward, is_real_inverse,
}
use flag_fft.Api.Handles.{
  forward_direction, inverse_direction, is_type, RawExecutionContext, Execute, put, World, Outcome,
  exec_c2c, exec_z2z, exec_r2c, exec_d2z, exec_c2r, exec_z2d, set_stream, destroy,
}

pub data Entry : Type 0 where
  enter_c2c enter_z2z enter_r2c enter_d2z enter_c2r enter_z2d : Entry

unfoldable pub entry_type : Entry → FftType
entry_type enter_c2c = c2c
entry_type enter_z2z = z2z
entry_type enter_r2c = r2c
entry_type enter_d2z = d2z
entry_type enter_c2r = c2r
entry_type enter_z2d = z2d

-- A call of the library, by its arguments.
pub data Call : Type 0 where
  run : Entry → (handle idata odata : ℕ) → ℤ → Call
  use_stream : (handle stream : ℕ) → Call
  release : (handle : ℕ) → Call

module _ {Node Device : Type 0} where
  -- The function of the library that a call is of.
  unfoldable pub perform : Execute Node Device → World Node Device → Call → Outcome Node Device
  perform execute world (run enter_c2c handle idata odata direction) =
      exec_c2c execute world handle idata odata direction
  perform execute world (run enter_z2z handle idata odata direction) =
      exec_z2z execute world handle idata odata direction
  perform execute world (run enter_r2c handle idata odata direction) =
      exec_r2c execute world handle idata odata
  perform execute world (run enter_d2z handle idata odata direction) =
      exec_d2z execute world handle idata odata
  perform execute world (run enter_c2r handle idata odata direction) =
      exec_c2r execute world handle idata odata
  perform execute world (run enter_z2d handle idata odata direction) =
      exec_z2d execute world handle idata odata
  perform execute world (use_stream handle stream) = set_stream world handle stream
  perform execute world (release handle) = destroy world handle

-- A transform that can be run: its descriptor, its stream, and for each direction that its type has the
-- request and the node.
pub record Transform (Node : Type 0) : Type 0 where
  pub desc : PlanDesc
  pub stream : ℕ
  pub forward_request : FftRequest
  pub inverse_request : FftRequest
  pub forward : Option Node
  pub inverse : Option Node

-- The direction of a call: real-to-complex transforms go forward, complex-to-real ones back, and the
-- other entry points take -1 or 1. `some true` is the inverse.
unfoldable pub direction_of : FftType → ℤ → Option Bool
direction_of fft_type direction =
    when is_real_forward fft_type
    then some false
    else when is_real_inverse fft_type
    then some true
    else when same_int direction forward_direction
    then some false
    else when same_int direction inverse_direction
    then some true
    else none

-- The table of the handles that are in use, and the device.
pub record Table (Node Device : Type 0) : Type 0 where
  pub entries : ℕ → Option (Transform Node)
  pub device : Device

pub data Answer (Node Device : Type 0) : Type 0 where
  -- A direction that no transform of its type has.
  unspecified : Answer Node Device
  answers : ApiResult → Table Node Device → Answer Node Device

unfoldable pub context_of : {Node : Type 0} → Transform Node → FftRequest → RawExecutionContext
context_of transform request = record {
  request = request;
  stream = transform.stream;
  batch = transform.desc.batch;
  input_distance = transform.desc.idist;
  output_distance = transform.desc.odist;
}

unfoldable pub node_of : {Node : Type 0} → Transform Node → Bool → Option Node
node_of transform inverse = when inverse then transform.inverse else transform.forward

unfoldable pub request_of : {Node : Type 0} → Transform Node → Bool → FftRequest
request_of transform inverse =
    when inverse then transform.inverse_request else transform.forward_request

unfoldable pub restream : {Node : Type 0} → Transform Node → ℕ → Transform Node
restream transform stream = record {
  desc = transform.desc;
  stream = stream;
  forward_request = transform.forward_request;
  inverse_request = transform.inverse_request;
  forward = transform.forward;
  inverse = transform.inverse;
}

unfoldable pub handle_of : Call → ℕ
handle_of (run entry handle idata odata direction) = handle
handle_of (use_stream handle stream) = handle
handle_of (release handle) = handle

module _ {Node Device : Type 0} where
  -- The device runs the node of the direction; the table stays.
  unfoldable pub run_node :
      Execute Node Device
      → Table Node Device
      → Option Node
      → (idata odata : ℕ) → RawExecutionContext
      → Answer Node Device
  run_node execute table none idata odata context = unspecified
  run_node execute table (some node) idata odata context =
      let (code, device) = execute node idata odata context table.device in
      answers code (record { entries = table.entries; device = device })

  unfoldable pub run_direction :
      Execute Node Device
      → Table Node Device
      → Transform Node
      → (idata odata : ℕ) → Option Bool
      → Answer Node Device
  unfolding run_node node_of request_of context_of
  run_direction execute table transform idata odata none = answers invalid_value table
  run_direction execute table transform idata odata (some inverse) =
      run_node execute table (node_of transform inverse) idata odata
        (context_of transform (request_of transform inverse))

  unfoldable pub run_transform :
      Execute Node Device
      → Table Node Device
      → Transform Node
      → FftType
      → (idata odata : ℕ) → ℤ
      → Answer Node Device
  unfolding run_direction direction_of is_type
  run_transform execute table transform fft_type idata odata direction =
      when idata == 0 || odata == 0
      then answers invalid_value table
      else when is_type transform.desc.fft_type fft_type
      then run_direction execute table transform idata odata (direction_of fft_type direction)
      else answers invalid_type table

  unfoldable pub renew : Table Node Device → ℕ → Option (Transform Node) → Table Node Device
  unfolding put
  renew table handle entry = record {
    entries = put handle entry table.entries;
    device = table.device;
  }

  -- A handle that is not in use is refused.
  unfoldable pub answer_at :
      Execute Node Device → Table Node Device → Option (Transform Node) → Call → Answer Node Device
  unfolding run_transform renew restream entry_type
  answer_at execute table none call = answers invalid_plan table
  answer_at execute table (some transform) (run entry handle idata odata direction) =
      run_transform execute table transform (entry_type entry) idata odata direction
  answer_at execute table (some transform) (use_stream handle stream) =
      answers success (renew table handle (some (restream transform stream)))
  answer_at execute table (some transform) (release handle) =
      answers success (renew table handle none)

  unfoldable pub answer : Execute Node Device → Table Node Device → Call → Answer Node Device
  unfolding answer_at handle_of
  answer execute table call = answer_at execute table (table.entries (handle_of call)) call
