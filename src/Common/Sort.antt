-- ===== src/Common/Sort.antt =====
-- `sort.Slice` of Go's standard library: some permutation in which no element stands
-- behind one that it is less than. It is not promised to be stable.
pub mod Slice
mod Insertion
pub mod Unique
unfoldable pub use Insertion.{insertion_sort, insertion_slice}
pub use Slice.{IsStrictWeak, IsStrictWeakOn, IsStrictWeak-on, IsSorted, SortSlice}
pub use Unique.{sorted_unique}
