-- ===== src/ReadAll/Complete.antt =====
-- ReadAll on a stream that has got its final error.
use incite.Stream.{Stream}
