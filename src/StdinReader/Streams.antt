-- ===== src/StdinReader/Streams.antt =====
-- A stream of frames, and what may be left of it behind the last complete frame.
use capnp_ls.Prelude.{◌<◌, Bytes, List, [], ◌∷◌, ◌++◌, ◌≡◌, length}
use capnp_ls.StdinReader.{digits_from}
use capnp_ls.StdinReader.Frames.{Frame, IsFrame, IsLength, framed, text}

-- The stream that holds the frames one behind the other.
abbrev pub texts : List Frame → Bytes
texts [] = []
texts (f ∷ fs) = text f ++ texts fs

abbrev pub AllFrames : List Frame → Type 0
AllFrames [] = Unit
AllFrames (f ∷ fs) = IsFrame f × AllFrames fs

-- Nothing, or a frame whose header is complete and whose body is not.
pub data IsTail : Bytes → Type 0 where
  empty : IsTail []
  cut :
      {tail : Bytes} (digits part : Bytes)
      → IsLength digits
      → length part < digits_from 0 digits
      → tail ≡ framed digits part
      → IsTail tail
