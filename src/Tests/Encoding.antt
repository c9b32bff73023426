-- ===== src/Tests/Encoding.antt =====
-- Frames made from texts.
use fgen.Prelude.{◌≡◌, refl, ◌↔◌, ◌⊎◌, true, false, some, List, [], ◌∷◌, arith, replicate}
use fgen.CString.{Bytes, codes}
use fgen.Strings.{fgen_strtok, strtrimset}
use fgen.Frame.{Fgen, no_fopt, max_layers}
use fgen.Encode.Machine.{
  Ctx, failed, ◌>>=◌, fbuf_data_len, set_data_len, add_data_len, lopt, set_opt_length,
}
use fgen.Encode.Table.{encode_frame, next_layer, all_opts, layer_fn, layer_at}
use fgen.Encode.Keeps.Rules.{After, Inv}
use fgen.Encode.Total.{next_layer-After, encode_frame-failed_iff}
use fgen.Frames.{
  FrameHeap, Result, done, error, undefined, unfinished, new_frame, add_frame, fgen_find_frame,
  fgen_load_strings,
}
use fgen.Frames.Add.{AddSpec, add_frame-AddSpec}
use fgen.Frames.Find.{
  IsValid, LeavesValid, Finds, add_frame-LeavesValid, add_frame-Finds, add_frame-keeps_found,
}
use fgen.Frames.Load.{Loads, fgen_load_strings-Loads}
use fgen.Encode.Params.{encode_opts, for_params, param_text}
use fgen.Encode.Layers.{ether_key, encode_ether, encode_done}
use fgen.Encode.Inet.{ipv4_key, finish_ipv4, start_ipv4, port_key, encode_ipv4, encode_udp}
use fgen.Encode.Payload.{fill_tail}
use fgen.Ether.{ether_unformat_addr}
use fgen.CString.Number.{strtol, inet_pton}
use fgen.Cksum.{ipv4_udptcp_cksum, ipv4_cksum}

abbrev room : FrameHeap
room = record { calloc_ok = true; name_ok = true; fstr_ok = true; text_ok = true; dup_ok = true }

abbrev ping_text : Bytes
ping_text = codes "Ether(dst=00:01:02:03:04:05)/IPv4(dst=1.2.3.4)/UDP(sport=5678)"

-- What `fgen_create` returns when the heap has room.
abbrev pub empty : Fgen
empty = record {
  head = [];
  flags = 0;
  nb_frames = 0;
  salloc = record { ptr = some (replicate 1024 0); size = 1024; used = 0 };
  nb_layers = 0;
  opts = replicate max_layers no_fopt;
}

abbrev one_frame : Fgen
one_frame = record empty { head = new_frame (codes "ping") ping_text ∷ []; nb_frames = 1 }

abbrev ctx : Ctx
ctx = record { frame = new_frame (codes "ping") ping_text; fg = one_frame }

abbrev two_layers : Ctx
two_layers = record ctx {
  fg = record one_frame { nb_layers = 3; opts = all_opts (codes "Ether()" ∷ codes "IPv4()" ∷ []) };
}

next_layer-After_example :
    After (Inv false two_layers) (Inv true two_layers) (next_layer 4 0 two_layers)
next_layer-After_example = next_layer-After 3 0 two_layers (omega arith)

encode_frame-failed_iff_example :
    ((s' : Ctx) × (encode_frame true ctx ≡ failed s'))
    ↔ ((true ≡ false) ⊎ (fgen_strtok ping_text (codes "/") 31 ≡ some []))
encode_frame-failed_iff_example = encode_frame-failed_iff true ctx

add_frame-AddSpec_example :
    AddSpec empty (codes "ping") ping_text (add_frame room empty (codes "ping") ping_text)
add_frame-AddSpec_example = add_frame-AddSpec room empty (codes "ping") ping_text

-- A search takes the first frame whose name begins with the text.
prefix_found : fgen_find_frame one_frame (codes "pi") ≡ some (new_frame (codes "ping") ping_text)
unfolding fgen_find_frame
prefix_found = refl

one_frame-IsValid : IsValid one_frame
unfolding fgen_find_frame
one_frame-IsValid = record { counted = refl; fresh = (refl, tt) }

add_frame-LeavesValid_example : LeavesValid (add_frame room one_frame (codes "pong") ping_text)
add_frame-LeavesValid_example =
    add_frame-LeavesValid room one_frame (codes "pong") ping_text one_frame-IsValid

abbrev fgen_of : Result → Fgen
fgen_of (done n fg) = fg
fgen_of (error fg) = fg
fgen_of undefined = empty
fgen_of unfinished = empty

abbrev pong_added : Fgen
pong_added = fgen_of (add_frame room one_frame (codes "pong") ping_text)

adding_runs : add_frame room one_frame (codes "pong") ping_text ≡ done 0 pong_added
unfolding ◌>>=◌ fbuf_data_len set_data_len add_data_len lopt set_opt_length encode_opts for_params
    param_text ether_key encode_ether encode_done ipv4_key finish_ipv4 start_ipv4 port_key
    encode_ipv4 encode_udp fill_tail layer_fn layer_at next_layer strtrimset fgen_strtok
    ether_unformat_addr strtol inet_pton fgen_load_strings ipv4_udptcp_cksum ipv4_cksum
adding_runs = refl

add_frame-Finds_example : Finds (codes "pong") ping_text pong_added
add_frame-Finds_example =
    add_frame-Finds room one_frame (codes "pong") ping_text 0 pong_added adding_runs

add_frame-keeps_found_example :
    fgen_find_frame pong_added (codes "pi") ≡ some (new_frame (codes "ping") ping_text)
add_frame-keeps_found_example =
    add_frame-keeps_found room one_frame (codes "pong") ping_text 0 pong_added (codes "pi")
      (new_frame (codes "ping") ping_text) adding_runs prefix_found

-- A string with a name, and one that is named after its number.
abbrev strings : List Bytes
strings = codes "pong := Ether()/IPv4()" ∷ codes "Ether()/Payload()" ∷ []

fgen_load_strings-Loads_example :
    Loads one_frame 0 2 (fgen_load_strings (λ i. room) one_frame strings)
fgen_load_strings-Loads_example =
    fgen_load_strings-Loads (λ i. room) one_frame strings one_frame-IsValid (omega arith)
