-- ===== src/Execution/Samples.antt =====
-- The guards of a factory.
use parliament.Base.{ok, ◌≡◌, refl}
use parliament.Execution.{open_factory}
use parliament.Execution.Fixtures.{factory}

opened : open_factory 1 factory ≡ ok factory
unfolding open_factory
opened = refl
