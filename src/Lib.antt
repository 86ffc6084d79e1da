-- ===== src/Lib.antt =====
-- KorbyOS, a small x86-64 operating system: its kernel and its desktop.
--
-- The kernel is src/main.h (memory, files, interrupt handlers, devices) and src/main.c (programs,
-- system calls, the terminal and the network), with the helpers of src/shared.h, which programs use
-- too. Interrupt handlers fill queues; the loop of `start` in src/main.c empties them, hands keys and
-- clicks to programs, answers packets and sends what the connections hold. Everything that lives
-- longer than a call is a node of a linked list (src/shared.h) in a block of the allocator
-- (src/main.h).
--
-- Base: the names shared by the other modules, words of 8 to 64 bits, Boolean tests and lists over
--   the native numbers.
-- Memory: `allocate` and `unallocate` of src/main.h and `getUsedRam` of src/main.c. The table of
--   `Allocation`s is a list, `allocations` the number of those in use. The search restarts at the end
--   of the first block in the way; its fuel is one more than the number of blocks, since each restart
--   passes one more of them. A search or a walk that leaves the entries ever written does not end in
--   the source and is `none`.
-- ItemList: `addItem`, `addItemFirst`, `removeItem`, `moveItemEnd`, `iterateList`, `listLength`
--   and `unallocateList` of src/shared.h, over a memory of words (the next fields) and the allocator.
--   The fuel of a walk is one more than the length of the list.
-- Text: `inString`, and the interface of the string functions of the EFI library.
-- Files: `writeFile`, `readFile`, `checkFile`, `checkFolder`, `deleteFile` and `getFiles` of
--   src/main.h, on the list of the entries. The EFI string functions are a parameter.
-- Input: the interrupt handlers `hpet`, `keyboard` and `mouse` of src/main.h, with the byte that
--   they read as an argument.
-- Programs: the lists and tables behind `execute`, `quit`, `waitForProgram`, `cancelWait`,
--   `registerSyscallHandler`, `getRegisteredSyscall` and `unregisterSyscallHandler` of src/main.c, with
--   `registerTerminal`, `print` and `unregisterTerminal` in Programs/Terminals. The
--   search for a pid gets fuel for one more round than there are programs.
-- Interrupts: `installInterrupt` and `unmaskInterrupt` of src/main.h, with the mask registers of the
--   two interrupt controllers as state. Interrupts/SetUp has the calls of them in `completed` up to that
--   for the system calls, and Interrupts/Completed adds the one for the network card that was found.
-- Boot: what `efi_main` of src/main.h computes before the kernel runs: the loop over the keys that
--   choose a resolution, the two walks of the APIC table and the loop over the memory map, with
--   `parseFolder`, `countFiles` and `addFiles` in Boot/Folders on a volume that is a tree. The walks of
--   the table have fuel for one round more than there are records.
-- Syscalls: the stubs of src/program.h and `syscallHandle` of src/main.c, as what they put in and take
--   out of the registers.
-- Desktop: src/programs/desktop/program.c. `Desktop` holds the state and the windows, Desktop/Move
--   `mouseMove` and Desktop/Click `mouseClick`; the other children prove. The pictures, the drawing
--   and the blocks of memory are left out.
-- Terminal: `terminalPrint` of src/main.c, and the part of `start` that shows the prompt and reads the
--   keys of a line. What is drawn is a list of calls. The children hold the tables of characters,
--   and the proofs: Print and Backspace of the cursor, Glyphs and Echo of the characters that are drawn,
--   Line and Typing of editing, Entered of a whole line.
-- Dhcp: the DHCP client in `start` of src/main.c, as a step on the client's addresses and queues.
--   Reading the options has fuel for as many rounds as the message has bytes; each takes one at least.
-- Dns: the DNS query and the NTP request of src/programs/test/program.c, as bytes.
-- Cards: the network cards of src/main.h. Cards holds the descriptors, the senders `e1000Send` and
--   `rtl8169Send` and the handlers `e1000` and `rtl8169`, with what is read of the cause register as an
--   argument; Cards/Rings the rings as `completed` sets them up, Cards/Pci the reads of the configuration
--   space and Cards/Search the search for a card. The other children prove.
-- Shell: the commands of the kernel's terminal in `start` of src/main.c, from a line that was typed to
--   the next prompt. What the `start` and the `update` of a program do is an argument. Shell/Parent and Shell/Paths prove about the current directory, Shell/Rounds about
--   a whole round and Shell/Folders about `..`.
-- Console: the desktop's terminal, src/programs/desktop/taskbar/terminal/program.c: `keyPress` and
--   `update`, over the terminal, the commands and the lists of programs of the kernel. What the
--   `start` of a program does is an argument. Console/Lines and Console/Rounds prove about `update`,
--   Console/Typed about its loop over the events.
-- Events: the input calls of src/main.c, and the loops of `start` that hand what is in the queues to the
--   terminal and to the registered functions. Events/Typed proves about the way from the keyboard's
--   bytes.
-- Graphics: `blit`, `drawImage` and `drawRectangle` of src/shared.h on buffers of pixels, with
--   `splitTask`, `coreBlit` and `coreFill` in Graphics/Cores, and `coreDrop` of src/main.c in
--   Graphics/Scroll. Graphics/Lines proves about all cores together.
--   Graphics/Glyph has `drawCharacter`, about which Graphics/Characters proves.
-- Net: the part of `start` in src/main.c that builds and receives UDP packets. The loops that fold
--   a checksum get fuel for three rounds, enough for every `uint32_t`. Net/Arp answers ARP
--   requests, and Net/Connections has the connections and the network's part of a whole round, on at
--   most the 255 frames of 2048 bytes that `ethernetPackets` holds.
--
-- Not modelled: the calls of EFI and the writes to devices at boot, and the exception screens, which
-- are sequences of drawing calls; inline assembly; the floating-point code; the contents of blocks of
-- memory other than next fields; the cards' registers other than their tails and causes; strings that
-- are drawn at once, and bitmaps. Failing allocations are not modelled: the source has none.
pub mod Base
pub mod Boot
pub mod Cards
pub mod Console
pub mod Desktop
pub mod Dhcp
pub mod Dns
pub mod Events
pub mod Files
pub mod Graphics
pub mod Input
pub mod Interrupts
pub mod ItemList
pub mod Memory
pub mod Net
pub mod Programs
pub mod Shell
pub mod Syscalls
pub mod Terminal
pub mod Text
