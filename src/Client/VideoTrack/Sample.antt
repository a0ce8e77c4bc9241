-- ===== src/Client/VideoTrack/Sample.antt =====
-- A new track, and a frame of two columns and three rows for it.
use direct_link.Base.{none, some, [], pos}
use direct_link.Base.Memory.{Bytes}
use direct_link.Client.FrameReader.{other, Mapped}
use direct_link.Client.VideoTrack.{Track, Event}

abbrev pub zeros : Bytes
zeros i = 0

abbrev pub mapped : Mapped
mapped = record { planar = none; rgba = some zeros; splash = some zeros }

abbrev pub fresh : Track
fresh = record {
  reader = record { sink = none; placeholder = none };
  stream = none;
  streams_made = 0;
  loop = none;
  ratio = (pos 16, pos 9);
}

abbrev pub tall : Event
tall = record {
  frame = record {
    data_ptr = some zeros;
    data_size = 24;
    width = pos 2;
    height = pos 3;
    kind = other;
    planes = [];
  };
  mapped = mapped;
  converted = some (zeros, 24);
}
