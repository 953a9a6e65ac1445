-- ===== src/Codec/Examples.antt =====
-- The codecs on concrete bytes.
use provider_agent_proxy.Common.{
  ℕ, ◌≡◌, ◌≢◌, refl, inl, inr, true, false, List, [], ◌∷◌, ◌++◌, some, arith, ◌≤◌,
}
use provider_agent_proxy.Common.Int.{pos, negsuc}
use provider_agent_proxy.Folly.ListBuf.{list_buf, write_bytes, read_bytes, split_bytes, drop_bytes}
use provider_agent_proxy.Codec.Decoder.{fire_read, done, after, read_loop, read}
use provider_agent_proxy.Codec.Decoder.Termination.{Ends}
use provider_agent_proxy.Codec.FixedLength as Fixed
use provider_agent_proxy.Codec.FixedLength.Frames.{Chunks, read-Chunks}
use provider_agent_proxy.Codec.LengthField as Field
use provider_agent_proxy.Codec.LengthField.Branches.{IsUsable}
use provider_agent_proxy.Codec.LengthField.Framing.{Frames, decode-Frames}
use provider_agent_proxy.Codec.LengthField.Progress.{read-LengthField-Ends, read-LengthField-append}
use provider_agent_proxy.Codec.LengthField.Creation.{create-IsUsable}
use provider_agent_proxy.Codec.Prepender as Prepender
use provider_agent_proxy.Codec.Prepender.{LengthFieldPrepender, fire_write, write}
use provider_agent_proxy.Codec.Prepender.RoundTrip.{Fits, decode-write}
use provider_agent_proxy.Codec.Prepender.Stream.{write_all, read-write_all}
use provider_agent_proxy.Codec.Line as Line
use provider_agent_proxy.Codec.Line.Lines.{lf_ending, cr_lf_ending, read-lines}

abbrev prepender : LengthFieldPrepender
prepender = record {
  length_field_length = 2;
  length_adjustment = pos 0;
  length_includes_length_field = false;
  network_byte_order = true;
}

abbrev decoder : Field.LengthFieldBasedFrameDecoder
decoder = record {
  length_field_length = 2;
  max_frame_length = 100;
  length_field_offset = 0;
  length_adjustment = pos 0;
  initial_bytes_to_strip = 2;
  network_byte_order = true;
  length_field_end_offset = 2;
}

decoder-IsUsable : IsUsable decoder
decoder-IsUsable = record {
  width = inr (inl refl);
  offset = omega arith;
  end_offset = refl;
  max_length = omega arith;
}

prepender-Fits : Fits prepender decoder
prepender-Fits = record {
  usable = decoder-IsUsable;
  int_adjustment = (omega arith, omega arith);
  same_length = refl;
  same_order = refl;
  at_front = refl;
  strips_field = refl;
  cancels = refl;
  not_below = omega arith;
}

abbrev two_messages : List ℕ
two_messages = 0 ∷ 2 ∷ 104 ∷ 105 ∷ 0 ∷ 1 ∷ 33 ∷ []

written : write list_buf prepender (104 ∷ 105 ∷ []) ≡ fire_write (0 ∷ 2 ∷ 104 ∷ 105 ∷ [])
unfolding write Prepender.length_value Prepender.encode_length write_bytes
written = refl

all_written : write_all list_buf prepender ((104 ∷ 105 ∷ []) ∷ (33 ∷ []) ∷ []) ≡ some two_messages
unfolding write_all write Prepender.length_value Prepender.encode_length write_bytes
all_written = refl

decode-write_example :
    Field.decode list_buf decoder ((0 ∷ 2 ∷ 104 ∷ 105 ∷ []) ++ (0 ∷ 1 ∷ []))
    ≡ some (record {
      state = decoder;
      buf = 0 ∷ 1 ∷ [];
      result = some (104 ∷ 105 ∷ []);
      fired = [];
      needed = 0;
    })
decode-write_example =
    decode-write list_buf prepender decoder (104 ∷ 105 ∷ []) (0 ∷ 2 ∷ 104 ∷ 105 ∷ []) (0 ∷ 1 ∷ [])
      prepender-Fits (omega arith) written

read-write_all_example :
    read (Field.decode list_buf) decoder two_messages
    ≡ done decoder [] (fire_read (104 ∷ 105 ∷ []) ∷ fire_read (33 ∷ []) ∷ [])
read-write_all_example =
    read-write_all list_buf prepender decoder ((104 ∷ 105 ∷ []) ∷ (33 ∷ []) ∷ []) two_messages
      prepender-Fits (omega arith, (omega arith, tt)) all_written

decode-Frames_example :
    Frames list_buf decoder two_messages (Field.decode list_buf decoder two_messages)
decode-Frames_example = decode-Frames list_buf decoder two_messages decoder-IsUsable

read-LengthField-Ends_example : Ends IsUsable (read (Field.decode list_buf) decoder two_messages)
read-LengthField-Ends_example = read-LengthField-Ends list_buf decoder two_messages decoder-IsUsable

abbrev first_piece : List ℕ
first_piece = 0 ∷ 2 ∷ 104 ∷ 105 ∷ 0 ∷ []

first_read :
    read (Field.decode list_buf) decoder first_piece
    ≡ done decoder (0 ∷ []) (fire_read (104 ∷ 105 ∷ []) ∷ [])
unfolding read read_loop Field.decode Field.get_unadjusted_frame_length Field.decode_frame
    Field.adjusted Field.take_frame read_bytes split_bytes drop_bytes
first_read = refl

read-LengthField-append_example :
    read (Field.decode list_buf) decoder (first_piece ++ (1 ∷ 33 ∷ []))
    ≡ after
        (fire_read (104 ∷ 105 ∷ []) ∷ [])
        (read (Field.decode list_buf) decoder ((0 ∷ []) ++ (1 ∷ 33 ∷ [])))
read-LengthField-append_example =
    read-LengthField-append list_buf decoder decoder first_piece (1 ∷ 33 ∷ []) (0 ∷ [])
      ((104 ∷ 105 ∷ []) ∷ []) decoder-IsUsable first_read

-- The length field counts the header as well, and the adjustment takes off more than that.
abbrev subtracting : Field.LengthFieldBasedFrameDecoder
subtracting = record decoder { length_adjustment = negsuc 2 }

subtracting-IsUsable : IsUsable subtracting
subtracting-IsUsable = record {
  width = inr (inl refl);
  offset = omega arith;
  end_offset = refl;
  max_length = omega arith;
}

abbrev fixed : Fixed.FixedLengthFrameDecoder
fixed = record { frame_length = 3 }

abbrev seven_bytes : List ℕ
seven_bytes = 1 ∷ 2 ∷ 3 ∷ 4 ∷ 5 ∷ 6 ∷ 7 ∷ []

read-Chunks_example :
    Chunks list_buf fixed seven_bytes (read (Fixed.decode list_buf) fixed seven_bytes)
read-Chunks_example = read-Chunks list_buf fixed seven_bytes (omega arith)

abbrev lines : Line.LineBasedFrameDecoder
lines = record {
  max_length = 4;
  strip_delimiter = true;
  discarding = false;
  discarded_bytes = 0;
  terminator_type = Line.both;
}

plain-a : (97 ≢ Line.lf) × (97 ≢ Line.cr)
plain-a = (omega arith, omega arith)

-- "a\r\naa\n".
read-lines_example :
    read (Line.decode list_buf) lines (97 ∷ 13 ∷ 10 ∷ 97 ∷ 97 ∷ 10 ∷ [])
    ≡ done lines [] (fire_read (97 ∷ []) ∷ fire_read (97 ∷ 97 ∷ []) ∷ [])
read-lines_example =
    read-lines list_buf lines ((97 ∷ [], cr_lf_ending) ∷ (97 ∷ 97 ∷ [], lf_ending) ∷ []) refl
      (((plain-a, tt), refl, omega arith), (((plain-a, (plain-a, tt)), refl, omega arith), tt))

creates : Field.create 2 100 0 (pos 0) 2 true ≡ some decoder
unfolding Field.create
creates = refl

create-IsUsable_example :
    IsUsable decoder × (decoder.length_field_end_offset ≤ decoder.max_frame_length)
create-IsUsable_example =
    create-IsUsable 2 100 0 (pos 0) 2 true decoder (inr (inl refl)) (omega arith) (omega arith)
      creates
